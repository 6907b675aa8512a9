-- ===== src/Acquire.antt =====
-- internal/pool/slot.go and coldfloor.go: one attempt of `simpool with` and `simpool acquire` to lock
-- `count` slots of a group (tryAcquireSlots).
pub mod Taking
pub mod Walking
pub mod Outcome
pub mod Clock
pub mod Residency
use simpool.Common.{
  ℕ, zero, suc, ◌+◌, ◌-◌, ◌*◌, Bool, true, false, not, ◌&&◌, ◌||◌, List, [], ◌∷◌, ◌++◌, Option,
  none, some, ltb, leb, ◌==◌, if◌then◌else◌, has, length,
}
use simpool.Meta.{Meta}
use simpool.Availability.{
  Availability, SlotDir, SlotState, slot_free, slot_busy, slot_leased, slot_quarantined,
  slot_unverifiable, unlocked, no_availability, slot_availability_locked,
}
use simpool.Group.{
  Slots, World, os_of, numbers, slot_at, put_slot, SlotUse, Claim, claim_taken, claim_busy,
  claim_over_use_cap, claim_failed, claim_slot_lock_capped, unlock,
}
use simpool.Dispatch.{dispatch_order, fresh_number}
use simpool.Claims.{Context, SlotRefusal, refused_for, recover_slot}

-- The variables of tryAcquireSlots: `acquired` holds the numbers of the slots it has locked, which
-- are also its map `taken`, and `cap` is set once the group is at its cap on slots in use.
pub record Walk : Type 0 where
  pub world : World
  pub acquired : List ℕ
  pub refusals : List SlotRefusal
  pub cap : Option (List SlotUse)

-- The closure `refuse`: one entry for each slot, the later verdict in the place of the earlier.
unfoldable pub record_refusal : ℕ → Availability → List SlotRefusal → List SlotRefusal
record_refusal n av [] = refused_for n av ∷ []
record_refusal n av (r ∷ rs) =
    if r.number == n then refused_for n av ∷ rs else r ∷ record_refusal n av rs

abbrev pub refuse : ℕ → Availability → Walk → Walk
refuse n av k = record k { refusals = record_refusal n av k.refusals }

abbrev pub start_of : World → Walk
start_of w = record { world = w; acquired = []; refusals = []; cap = none }

abbrev pub acquire_slot : ℕ → Walk → Walk
acquire_slot n k = record k { acquired = k.acquired ++ n ∷ [] }

abbrev pub give_back : ℕ → Availability → Walk → Walk
give_back n av k = refuse n av (record k { world = unlock n k.world })

-- The closure `take`, once it holds the slot's flock.
unfoldable pub decide_take : SlotState → Context → ℕ → Availability → Walk → Walk
decide_take slot_free c n av k = acquire_slot n k
decide_take slot_quarantined c n av k =
    let (recovered, w) = recover_slot c n av.meta av.poison k.world in
    if recovered
    then acquire_slot n (record k { world = w })
    else give_back n av (record k { world = w })
decide_take _ c n av k = give_back n av k

-- Past the claim of the flock; `none` is an error that ends the attempt.
unfoldable pub after_take : Claim → Context → ℕ → Walk → Bool × Walk
after_take claim_taken c n k =
    let av = slot_availability_locked (os_of k.world) (slot_at n k.world.slots) [] in
    (true, decide_take av.state c n av k)
after_take claim_busy c n k = (true, refuse n (record no_availability { state = slot_busy }) k)
after_take (claim_over_use_cap uses) c n k = (true, record k { cap = some uses })
after_take claim_failed c n k = (false, k)

-- take(n): false where it returns an error.
unfoldable pub take : Context → ℕ → ℕ → Walk → Bool × Walk
take c max n k =
    let (claim, w) = claim_slot_lock_capped n max k.acquired [] k.world in
    after_take claim c n (record k { world = w })

abbrev capped : Option (List SlotUse) → Bool
capped none = false
capped (some uses) = true

-- len(acquired) >= count || capped
unfoldable pub done : ℕ → Walk → Bool
done count k = leb count (length k.acquired) || capped k.cap

abbrev pub then_take : Bool × Walk → (Walk → Bool × Walk) → Bool × Walk
then_take (true, k) f = f k
then_take (false, k) f = (false, k)

module _ (c : Context) (count max : ℕ) where
  -- The first and the third pass: the slots in order, less those that the call already holds.
  unfoldable pub take_each : List ℕ → Walk → Bool × Walk
  take_each [] k = (true, k)
  take_each (n ∷ ns) k =
      if done count k
      then (true, k)
      else if has n k.acquired
      then take_each ns k
      else then_take (take c max n k) (take_each ns)

  -- The second pass: new slot numbers, while the group has fewer than `max` slots. `room` is how
  -- many it may add.
  unfoldable pub take_new : ℕ → ℕ → List ℕ → Walk → Bool × Walk
  take_new zero next resident k = (true, k)
  take_new (suc room) next resident k =
      let n = fresh_number next resident in
      if done count k
      then (true, k)
      else then_take (take c max n k) (take_new room (n + 1) (n ∷ resident))

-- The refusal of slot `n`, if there is one.
unfoldable pub refusal_of : ℕ → List SlotRefusal → Option SlotState
refusal_of n [] = none
refusal_of n (r ∷ rs) = if r.number == n then some r.availability.state else refusal_of n rs

-- A slot that this call could still end up on: skipped so far, or in the hands of someone whose
-- work ends.
abbrev is_fallback : Option SlotState → Bool
is_fallback none = true
is_fallback (some slot_busy) = true
is_fallback (some slot_leased) = true
is_fallback (some _) = false

unfoldable pub fallbacks : List ℕ → Walk → ℕ
fallbacks [] k = 0
fallbacks (n ∷ ns) k =
    let rest = fallbacks ns k in
    if not (has n k.acquired) && is_fallback (refusal_of n k.refusals) then suc rest else rest

abbrev below_floor : Option (ℕ × ℕ) → ℕ → Bool
below_floor none percent = false
below_floor (some (free, total)) percent = ltb (100 * free) (percent * total)

-- coldBootFloor: is adding a simulator declined? The free memory is `free` of `total` bytes, or
-- unknown; the floor is a percentage.
unfoldable pub cold_boot_floor : Option (ℕ × ℕ) → ℕ → ℕ → ℕ → Bool
cold_boot_floor memory percent usable needed = not (ltb usable needed) && below_floor memory percent

-- Slot.Release: the flock, and the time of release in meta.json.
unfoldable pub release_slot : ℕ → World → World
release_slot n w =
    let d = slot_at n w.slots in
    record w {
      slots =
          put_slot n
            (record d { lock = unlocked; meta = record d.meta { last_used = (os_of w).now } })
            w.slots;
    }

unfoldable pub release_all : List ℕ → World → World
release_all [] w = w
release_all (n ∷ ns) w = release_all ns (release_slot n w)

pub data AcquireResult : Type 0 where
  acquired : List ℕ → AcquireResult
  use_cap_reached : List SlotUse → AcquireResult  -- atUseCapError
  below_memory_floor : List SlotRefusal → AcquireResult  -- atMemoryFloorError
  group_full : List SlotRefusal → AcquireResult  -- atCapacityError
  attempt_failed : AcquireResult

-- The entries for slots that were taken and are given back.
abbrev given_back : List ℕ → List SlotRefusal
given_back [] = []
given_back (n ∷ ns) =
    record { number = n; availability = no_availability; taken_then_released = true }
    ∷ given_back ns

abbrev pub shortage : Bool → Walk → Option (List SlotUse) → AcquireResult
shortage declined k (some uses) = use_cap_reached uses
shortage declined k none =
    let refusals = k.refusals ++ given_back k.acquired in
    if declined then below_memory_floor refusals else group_full refusals

-- The end of tryAcquireSlots: all slots, or none.
unfoldable pub finish : ℕ → Bool → Bool × Walk → AcquireResult × World
finish count declined (false, k) = (attempt_failed, release_all k.acquired k.world)
finish count declined (true, k) =
    if leb count (length k.acquired)
    then (acquired k.acquired, k.world)
    else (shortage declined k k.cap, release_all k.acquired k.world)

module _ (c : Context) (memory : Option (ℕ × ℕ)) (percent count max : ℕ) where
  -- Is the second pass reached and declined?
  unfoldable pub declines : List ℕ → Walk → Bool
  declines existing k =
      ltb (length k.acquired) count
      && ltb (length existing) max
      && not (capped k.cap)
      && cold_boot_floor memory percent (fallbacks existing k) (count - length k.acquired)

  unfoldable pub passes_after : List ℕ → List ℕ → Walk → Bool → Bool × Walk
  passes_after existing order k declined =
      then_take
        (if declined then (true, k) else take_new c count max (max - length existing) 0 existing k)
        (take_each c count max order)

  unfoldable pub after_first : List ℕ → List ℕ → Bool × Walk → AcquireResult × World
  after_first existing order (false, k) = finish count false (false, k)
  after_first existing order (true, k) =
      let declined = declines existing k in
      finish count declined (passes_after existing order k declined)

  -- tryAcquireSlots
  unfoldable pub try_acquire_slots : World → AcquireResult × World
  try_acquire_slots w =
      let order = dispatch_order c.want w.slots in
      after_first (numbers w.slots) (order.0 ++ order.1)
        (take_each c count max order.0 (start_of w))
