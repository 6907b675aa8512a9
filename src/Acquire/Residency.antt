-- ===== src/Acquire/Residency.antt =====
-- internal/pool/slot.go: an attempt does not take a group past its cap on slot directories.
use simpool.Common.{
  ℕ, zero, suc, ◌+◌, ◌-◌, ◌≤◌, ◌≡◌, refl, inl, inr, Bool, true, false, List, [], ◌∷◌, ◌++◌, Option,
  none, arith, has, length, All, Bool-cases, ap, ◌∙◌,
}
use simpool.Availability.{
  Availability, SlotState, slot_free, slot_busy, slot_leased, slot_quarantined, slot_unverifiable,
}
use simpool.Group.{
  World, numbers, slot_at, Claim, claim_taken, claim_busy, claim_over_use_cap, claim_failed,
  claim_slot_lock_capped, unlock,
}
use simpool.Group.Slots.{Ascends}
use simpool.Group.Numbers.{
  Ascending, numbers-Ascending, AtMost, AtMost-trans, numbers-put_slot, put_slot-AtMost,
  claim-AtMost, with_number_known, length-with_number, with_number-Ascending, has-with_number,
  with_number, locked-has,
}
use simpool.Dispatch.Known.{known-All, append-All, dispatch_order-known}
use simpool.Dispatch.{dispatch_order, fresh_number}
use simpool.Claims.{Context, recover_slot}
use simpool.Acquire.{
  Walk, decide_take, after_take, take, done, take_each, take_new, then_take, finish, declines,
  passes_after, after_first, try_acquire_slots, release_slot, release_all,
}
use simpool.Acquire.Outcome.{passes_after-Sound}
use simpool.Acquire.Walking.{then_take_keeps, begun, Sound, take_each-Sound}

then_take_leads :
    (P Q : Walk → Type 0) (x : Bool × Walk) (f : Walk → Bool × Walk)
    → P x.1
    → ((k : Walk) → P k → Q k)
    → ((k : Walk) → P k → Q (f k).1)
    → Q (then_take x f).1
then_take_leads P Q (true, k) f p g h = h k p
then_take_leads P Q (false, k) f p g h = g k p

abbrev walk_numbers : Walk → List ℕ
walk_numbers k = numbers k.world.slots

module _ (c : Context) (max : ℕ) where
  decide_take-AtMost :
      (st : SlotState) (n : ℕ) (av : Availability) (k : Walk)
      → AtMost n (walk_numbers k) (walk_numbers (decide_take st c n av k))
  unfolding decide_take unlock recover_slot
  decide_take-AtMost slot_free n av k = inl refl
  decide_take-AtMost slot_busy n av k = put_slot-AtMost n _ k.world.slots
  decide_take-AtMost slot_leased n av k = put_slot-AtMost n _ k.world.slots
  decide_take-AtMost slot_unverifiable n av k = put_slot-AtMost n _ k.world.slots
  decide_take-AtMost slot_quarantined n av k =
      let w = (recover_slot c n av.meta av.poison k.world).1 in
      let one = put_slot-AtMost n (slot_at n w.slots) k.world.slots in
      elim (Bool-cases (recover_slot c n av.meta av.poison k.world).0) [
        | inl e ↦ rw (e, decide_take) (put_slot-AtMost n _ k.world.slots)
        | inr e ↦
            rw (e, decide_take)
              (AtMost-trans n (walk_numbers k) (numbers w.slots) _
                (put_slot-AtMost n _ k.world.slots) (put_slot-AtMost n _ w.slots))
      ]

  after_take-AtMost :
      (claim : Claim) (n : ℕ) (k : Walk)
      → AtMost n (walk_numbers k) (walk_numbers (after_take claim c n k).1)
  unfolding after_take
  after_take-AtMost claim_taken n k = decide_take-AtMost _ n _ k
  after_take-AtMost claim_busy n k = inl refl
  after_take-AtMost (claim_over_use_cap uses) n k = inl refl
  after_take-AtMost claim_failed n k = inl refl

  take-AtMost : (n : ℕ) (k : Walk) → AtMost n (walk_numbers k) (walk_numbers (take c max n k).1)
  unfolding take
  take-AtMost n k =
      let x = claim_slot_lock_capped n max k.acquired [] k.world in
      AtMost-trans n (walk_numbers k) (numbers x.1.slots) _
        (claim-AtMost n max k.acquired [] k.world)
        (after_take-AtMost x.0 n (record k { world = x.1 }))

-- The numbers ascend, include those of a list, and are at most so many.
abbrev Within : List ℕ → ℕ → Walk → Type 0
Within ns size k =
    Ascending 0 (walk_numbers k)
    × ((m : ℕ) → has m ns ≡ true → has m (walk_numbers k) ≡ true)
    × (length (walk_numbers k) ≤ size)

module _ (c : Context) (count max : ℕ) (known : List ℕ) where
  take-Within :
      (n size : ℕ) (k : Walk)
      → Within known size k
      → Within known (suc size) (take c max n k).1
        × (has n known ≡ true → Within known size (take c max n k).1)
  take-Within n size k h = elim (take-AtMost c max n k) [
    | inl e ↦ rw e ((h.0, h.1, omega arith), λ f. h)
    | inr e ↦
        let a : Ascending 0 (with_number n (walk_numbers k)) =
          with_number-Ascending 0 n (walk_numbers k) (omega arith) h.0 in
        let f : (m : ℕ) → has m known ≡ true → has m (with_number n (walk_numbers k)) ≡ true =
          λ m g. ground (arith, h.1 m, has-with_number n m (walk_numbers k)) in
        rw e (
          (a, f, omega (arith, length-with_number n (walk_numbers k))),
          λ g. (
            a,
            f,
            omega (arith, ap length (with_number_known 0 n (walk_numbers k) h.0 (h.1 n g))),
          ),
        )
  ]

  take_each-Within :
      (ns : List ℕ) (size : ℕ) (k : Walk)
      → All (λ n. has n known ≡ true) ns
      → Within known size k
      → Within known size (take_each c count max ns k).1
  unfolding take_each
  take_each-Within [] size k a h = h
  take_each-Within (n ∷ ns) size k a h = elim (Bool-cases (done count k)) [
    | inl d ↦ rw (d, take_each) h
    | inr d ↦ elim (Bool-cases (has n k.acquired)) [
      | inl e ↦ rw (d, e, take_each) (take_each-Within ns size k a.1 h)
      | inr e ↦
          rw (d, e, take_each)
            (then_take_keeps (Within known size) (take c max n k) (take_each c count max ns)
              ((take-Within n size k h).1 a.0) (λ j. take_each-Within ns size j a.1))
    ]
  ]

  larger : (size more : ℕ) (k : Walk) → size ≤ more → Within known size k → Within known more k
  larger size more k h w = (w.0, w.1, omega arith)

  take_new-Within :
      (room size next : ℕ) (resident : List ℕ) (k : Walk)
      → Within known size k
      → Within known (size + room) (take_new c count max room next resident k).1
  unfolding take_new
  take_new-Within zero size next resident k h = larger size (size + 0) k (omega arith) h
  take_new-Within (suc room) size next resident k h =
      let n = fresh_number next resident in
      elim (Bool-cases (done count k)) [
        | inl d ↦ rw (d, take_new) (larger size (size + suc room) k (omega arith) h)
        | inr d ↦
            rw (d, take_new)
              (then_take_leads (Within known (suc size)) (Within known (size + suc room))
                (take c max n k) (take_new c count max room (n + 1) (n ∷ resident))
                (take-Within n size k h).0
                (λ j g. larger (suc size) (size + suc room) j (omega arith) g)
                (λ j g.
                  larger (suc size + room) (size + suc room)
                    (take_new c count max room (n + 1) (n ∷ resident) j).1 (omega arith)
                    (take_new-Within room (suc size) (n + 1) (n ∷ resident) j g)))
      ]

-- Giving back slots that have a directory makes none.
release_all-numbers :
    (ns : List ℕ) (w : World)
    → Ascending 0 (numbers w.slots)
    → All (λ n. has n (numbers w.slots) ≡ true) ns
    → numbers (release_all ns w).slots ≡ numbers w.slots
unfolding release_all release_slot
release_all-numbers [] w a h = refl
release_all-numbers (n ∷ ns) w a h =
    let same : numbers (release_slot n w).slots ≡ numbers w.slots =
      numbers-put_slot n _ w.slots ∙ with_number_known 0 n (numbers w.slots) a h.0 in
    release_all-numbers ns (release_slot n w) (rw same a) (rw same h.1) ∙ same

module _ (c : Context) (memory : Option (ℕ × ℕ)) (percent count max : ℕ) (w : World) where
  given_back-numbers :
      (k : Walk)
      → Sound c count max w k
      → numbers (release_all k.acquired k.world).slots ≡ walk_numbers k
  given_back-numbers k s =
      release_all-numbers k.acquired k.world (numbers-Ascending 0 k.world.slots s.0.0) (
        known-All (walk_numbers k) k.acquired
          (λ m h. ground (arith, s.0.1 m, locked-has m k.world.slots)))

  finish-numbers :
      (declined : Bool) (r : Bool × Walk)
      → Sound c count max w r.1
      → numbers (finish count declined r).1.slots ≡ walk_numbers r.1
  unfolding finish
  finish-numbers declined (false, k) s = given_back-numbers k s
  finish-numbers declined (true, k) s = ground (arith, given_back-numbers k s)

  -- What is left of the cap when the group has `size` slots.
  abbrev cap_from : ℕ → ℕ
  cap_from size = size + (max - size)

  passes_after-Within :
      (known order : List ℕ) (k : Walk) (declined : Bool)
      → All (λ n. has n known ≡ true) order
      → Within known (length known) k
      → Within known
          (cap_from (length known))
          (passes_after c memory percent count max known order k declined).1
  unfolding passes_after
  passes_after-Within known order k true a h =
      larger c count max known (length known) (cap_from (length known))
        (take_each c count max order k).1 (omega arith)
        (take_each-Within c count max known order (length known) k a h)
  passes_after-Within known order k false a h =
      then_take_keeps (Within known (cap_from (length known)))
        (take_new c count max (max - length known) 0 known k) (take_each c count max order)
        (take_new-Within c count max known (max - length known) (length known) 0 known k h)
        (λ j. take_each-Within c count max known order (cap_from (length known)) j a)

  after_first-size :
      (known order : List ℕ) (r : Bool × Walk)
      → All (λ n. has n known ≡ true) order
      → Within known (length known) r.1
      → Sound c count max w r.1
      → length (numbers (after_first c memory percent count max known order r).1.slots)
        ≤ cap_from (length known)
  unfolding after_first
  after_first-size known order (false, k) a h s =
      omega (arith, h.2, ap length (finish-numbers false (false, k) s))
  after_first-size known order (true, k) a h s =
      let declined = declines c memory percent count max known k in
      let r = passes_after c memory percent count max known order k declined in
      omega (
        arith,
        (passes_after-Within known order k declined a h).2,
        ap length (
            finish-numbers declined r
              (passes_after-Sound c count max w memory percent known order k declined s)),
      )

  -- One attempt on a group whose slots are in order of their numbers leaves it with at most `max`
  -- slot directories, or with as many as it had if those were more.
  pub try_acquire_slots_within_max :
      Ascends 0 w.slots
      → length (numbers (try_acquire_slots c memory percent count max w).1.slots)
        ≤ length (numbers w.slots) + (max - length (numbers w.slots))
  unfolding try_acquire_slots has
  try_acquire_slots_within_max a =
      let known = numbers w.slots in
      let order = dispatch_order c.want w.slots in
      let start : Walk = record { world = w; acquired = []; refusals = []; cap = none } in
      let (first, second) = dispatch_order-known c.want w.slots in
      after_first-size known (order.0 ++ order.1) (take_each c count max order.0 start)
        (append-All (λ n. has n known ≡ true) order.0 order.1 first second)
        (take_each-Within c count max known order.0 (length known) start first
          (numbers-Ascending 0 w.slots a, λ m h. h, omega arith))
        (take_each-Sound c count max w order.0 start
          ((a, λ m. refl, λ m e. cc, λ m. refl), tt, omega arith, (begun, tt)))
