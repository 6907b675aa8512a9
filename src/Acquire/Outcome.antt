-- ===== src/Acquire/Outcome.antt =====
-- internal/pool/slot.go: an attempt gets all the slots that it asks for, or leaves every lock as it
-- was.
use simpool.Common.{
  ℕ, ◌-◌, ◌≡◌, refl, inl, inr, Bool, true, false, List, [], ◌∷◌, ◌++◌, Option, none, some, arith,
  leb, ◌==◌, if◌then◌else◌, has, All, length, Bool-cases, ◌∙◌,
}
use simpool.Availability.{unlocked}
use simpool.Group.{World, slot_at, SlotUse, numbers}
use simpool.Group.Slots.{Ascends, slot_at-put_slot, put_slot-Ascends}
use simpool.Claims.{Context}
use simpool.Dispatch.{dispatch_order}
use simpool.Acquire.{
  Walk, start_of, AcquireResult, acquired, take_each, take_new, finish, declines, passes_after,
  after_first, try_acquire_slots, shortage, release_all, release_slot,
}
use simpool.Acquire.Taking.{SameLocks, Holds, Distinct}
use simpool.Acquire.Walking.{
  Trace, begun, Given, Sound, take_each-Sound, take_new-Sound, then_take_keeps,
}

-- Giving back the slots that the call holds leaves the locks as they were.
release_slot-frame :
    (n : ℕ) (w : World)
    → (Ascends 0 w.slots → Ascends 0 (release_slot n w).slots)
      × ((m : ℕ)
          → (slot_at m (release_slot n w).slots).lock
            ≡ (if n == m then unlocked else (slot_at m w.slots).lock))
      × ((m : ℕ) → (slot_at m (release_slot n w).slots).lease_file ≡ (slot_at m w.slots).lease_file)
unfolding release_slot
release_slot-frame n w = (
  put_slot-Ascends 0 n _ w.slots (omega arith),
  λ m. rw slot_at-put_slot (ground arith),
  λ m. rw slot_at-put_slot (ground arith),
)

release_all-frame :
    (ns : List ℕ) (w : World)
    → (Ascends 0 w.slots → Ascends 0 (release_all ns w).slots)
      × ((m : ℕ)
          → (slot_at m (release_all ns w).slots).lock
            ≡ (if has m ns then unlocked else (slot_at m w.slots).lock))
      × ((m : ℕ) → (slot_at m (release_all ns w).slots).lease_file ≡ (slot_at m w.slots).lease_file)
unfolding release_all has
release_all-frame [] w = (λ a. a, λ m. refl, λ m. refl)
release_all-frame (n ∷ ns) w =
    let one = release_slot-frame n w in
    let more = release_all-frame ns (release_slot n w) in
    (λ a. more.0 (one.0 a), λ m. ground (arith, one.1 m, more.1 m), λ m. more.2 m ∙ one.2 m)

release_all-SameLocks :
    (w w' : World) (xs : List ℕ) → Holds w xs w' → SameLocks w (release_all xs w')
release_all-SameLocks w w' xs h =
    let f = release_all-frame xs w' in
    (f.0 h.0, λ m. ground (arith, f.1 m, h.1 m, h.2 m), λ m. f.2 m ∙ h.3 m)

-- All the slots asked for, or no lock and no lease changed.
abbrev pub AllOrNothing : Context → ℕ → ℕ → World → AcquireResult → World → Type 0
AllOrNothing c count max w (acquired ns) w' =
    (length ns ≡ count)
    × Distinct ns
    × Holds w ns w'
    × ((k : Walk) × (k.acquired ≡ ns)
        × (k.world ≡ w')
        × ((t : Trace c count max (start_of w) k) × All (Given c count max (start_of w) k t) ns))
AllOrNothing c count max w _ w' = SameLocks w w'

module _ (c : Context) (count max : ℕ) (w : World) where
  shortage-AllOrNothing :
      (declined : Bool) (k : Walk) (cap : Option (List SlotUse)) (w' : World)
      → SameLocks w w'
      → AllOrNothing c count max w (shortage declined k cap) w'
  shortage-AllOrNothing declined k (some uses) w' s = s
  shortage-AllOrNothing true k none w' s = s
  shortage-AllOrNothing false k none w' s = s

  finish-AllOrNothing :
      (declined : Bool) (r : Bool × Walk)
      → Sound c count max w r.1
      → AllOrNothing c count max w (finish count declined r).0 (finish count declined r).1
  unfolding finish
  finish-AllOrNothing declined (false, k) s = release_all-SameLocks w k.world k.acquired s.0
  finish-AllOrNothing declined (true, k) s = elim (Bool-cases (leb count (length k.acquired))) [
    | inl e ↦ rw (e, finish) (ground arith, s.1, s.0, (k, refl, refl, s.3))
    | inr e ↦
        rw (e, finish)
          (shortage-AllOrNothing declined k k.cap (release_all k.acquired k.world)
            (release_all-SameLocks w k.world k.acquired s.0))
  ]

  module _ (memory : Option (ℕ × ℕ)) (percent : ℕ) where
    pub passes_after-Sound :
        (existing order : List ℕ) (k : Walk) (declined : Bool)
        → Sound c count max w k
        → Sound c count max w (passes_after c memory percent count max existing order k declined).1
    unfolding passes_after
    passes_after-Sound existing order k true s = take_each-Sound c count max w order k s
    passes_after-Sound existing order k false s =
        then_take_keeps (Sound c count max w)
          (take_new c count max (max - length existing) 0 existing k) (take_each c count max order)
          (take_new-Sound c count max w (max - length existing) 0 existing k s)
          (take_each-Sound c count max w order)

    after_first-AllOrNothing :
        (existing order : List ℕ) (r : Bool × Walk)
        → Sound c count max w r.1
        → let x = after_first c memory percent count max existing order r in
          AllOrNothing c count max w x.0 x.1
    unfolding after_first
    after_first-AllOrNothing existing order (false, k) s = finish-AllOrNothing false (false, k) s
    after_first-AllOrNothing existing order (true, k) s =
        let declined = declines c memory percent count max existing k in
        finish-AllOrNothing declined
          (passes_after c memory percent count max existing order k declined)
          (passes_after-Sound existing order k declined s)

    -- One attempt on a group whose slots are in order of their numbers either returns `count`
    -- different slots, each of which was unlocked and is locked now; they are what a sequence of
    -- takes from the start of the attempt leads to, and in the world in which the take that added a
    -- slot began it could be given to the keyless caller. Or the attempt leaves every lock as it was.
    -- Either way no other slot's lock and no lease has changed.
    pub try_acquire_slots-AllOrNothing :
        Ascends 0 w.slots
        → let x = try_acquire_slots c memory percent count max w in
          AllOrNothing c count max w x.0 x.1
    unfolding try_acquire_slots has
    try_acquire_slots-AllOrNothing a =
        let order = dispatch_order c.want w.slots in
        let start : Walk = record { world = w; acquired = []; refusals = []; cap = none } in
        after_first-AllOrNothing (numbers w.slots) (order.0 ++ order.1)
          (take_each c count max order.0 start)
          (take_each-Sound c count max w order.0 start
            ((a, λ m. refl, λ m e. cc, λ m. refl), tt, omega arith, (begun, tt)))
