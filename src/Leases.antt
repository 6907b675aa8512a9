-- ===== src/Leases.antt =====
-- internal/pool/lease.go: `simpool lease` (AcquireLease), `simpool release` (ReleaseLease) and
-- CleanupExpiredLease.
pub mod Holding
pub mod Renewal
pub mod Releasing
pub mod Waiting
use simpool.Common.{
  ℕ, zero, suc, ◌+◌, ◌-◌, Bool, true, false, not, ◌&&◌, ◌||◌, List, [], ◌∷◌, ◌++◌, Option, none,
  some, ltb, ◌==◌, if◌then◌else◌, length,
}
use simpool.Text.{Text, text_eq, is_empty}
use simpool.Meta.{Lease, LeaseFile, absent, unreadable, present, lease_alive}
use simpool.Procs.{Os}
use simpool.Availability.{Availability, SlotDir, SlotState, slot_busy}
use simpool.Group.{Slots, World, os_of, numbers, slot_at, put_slot, SlotUse, shutdown_in_progress}
use simpool.Dispatch.{dispatch_order, fresh_number}
use simpool.Claims.{
  Context, SlotRefusal, refused_for, LeaseClaim, lease_taken, lease_refused, lease_over_cap,
  lease_failed, write_lease, claim_slot_for_lease,
}

-- The result of AcquireLease. `leased n r` is slot `n`, with `Slot.Renewed` as `r`.
pub data LeaseResult : Type 0 where
  leased : ℕ → Bool → LeaseResult
  at_use_cap : List SlotUse → LeaseResult
  at_capacity : List SlotRefusal → LeaseResult
  bad_arguments : LeaseResult
  io_failed : LeaseResult

-- A pass either ends the call or goes on with the refusals so far.
pub data Pass : Type 0 where
  ends : LeaseResult → World → Pass
  goes_on : List SlotRefusal → World → Pass

abbrev pub then_pass : Pass → (List SlotRefusal → World → Pass) → Pass
then_pass (ends r w) f = ends r w
then_pass (goes_on refusals w) f = f refusals w

-- The closure `claim` of AcquireLease.
unfoldable pub pass_of : ℕ → List SlotRefusal → LeaseClaim × World → Pass
pass_of n refusals (lease_taken, w) = ends (leased n false) w
pass_of n refusals (lease_refused av, w) = goes_on (refusals ++ refused_for n av ∷ []) w
pass_of n refusals (lease_over_cap uses, w) = ends (at_use_cap uses) w
pass_of n refusals (lease_failed, w) = ends io_failed w

module _ (c : Context) (key : Text) (ttl max : ℕ) where
  unfoldable pub claim : ℕ → List SlotRefusal → World → Pass
  claim n refusals w = pass_of n refusals (claim_slot_for_lease c n key ttl max w)

  unfoldable pub claim_each : List ℕ → List SlotRefusal → World → Pass
  claim_each [] refusals w = goes_on refusals w
  claim_each (n ∷ ns) refusals w = then_pass (claim n refusals w) (claim_each ns)

  -- `for ShutdownInProgress(slotDir) && time.Now().Before(deadline) { time.Sleep(…) }`
  unfoldable pub wait_marker : ℕ → ℕ → ℕ → World → World
  wait_marker zero deadline n w = w
  wait_marker (suc polls) deadline n w =
      let rest = wait_marker polls deadline n (c.sleep w) in
      if shutdown_in_progress (os_of w) (slot_at n w.slots) && ltb (os_of w).now deadline
      then rest
      else w

  -- The retries of waitOutIdleShutdown. Its caller drops the refusals that they add.
  unfoldable pub claim_again : ℕ → ℕ → ℕ → List SlotRefusal → World → Pass
  claim_again zero deadline n refusals w = goes_on refusals w
  claim_again (suc tries) deadline n refusals w =
      let next =
        then_pass (claim n refusals w)
          (λ _ w'. claim_again tries deadline n refusals (c.sleep w')) in
      if ltb (os_of w).now deadline then next else goes_on refusals w

  -- waitOutIdleShutdown: 60 seconds in polls of 250 milliseconds.
  unfoldable pub wait_out_idle_shutdown : ℕ → List SlotRefusal → World → Pass
  wait_out_idle_shutdown n refusals w =
      let deadline = (os_of w).now + 60_000_000_000 in
      if shutdown_in_progress (os_of w) (slot_at n w.slots)
      then claim_again 8 deadline n refusals (wait_marker 241 deadline n w)
      else goes_on refusals w

  abbrev pub is_busy : SlotState → Bool
  is_busy slot_busy = true
  is_busy _ = false

  -- The loop over the matching slots that were refused.
  unfoldable pub wait_each : List SlotRefusal → List SlotRefusal → World → Pass
  wait_each [] refusals w = goes_on refusals w
  wait_each (r ∷ rs) refusals w =
      if is_busy r.availability.state
      then then_pass (wait_out_idle_shutdown r.number refusals w) (wait_each rs)
      else wait_each rs refusals w

  -- The loop that adds slots while the group is below `max`; `room` is how many it may add.
  unfoldable pub claim_new : ℕ → ℕ → List ℕ → List SlotRefusal → World → Pass
  claim_new zero next resident refusals w = goes_on refusals w
  claim_new (suc room) next resident refusals w =
      let n = fresh_number next resident in
      then_pass (claim n refusals w) (claim_new room (n + 1) (n ∷ resident))

-- `lease.Key == key && lease.Alive()`; a lease.json that cannot be read is not this key's.
unfoldable pub is_own : Os → Text → LeaseFile → Bool
is_own os key (present l) = text_eq l.key key && lease_alive os.now l
is_own os key _ = false

-- The loop of AcquireLease that looks for the key's own live lease.
unfoldable pub sticky_slot : Os → Text → Slots → Option ℕ
sticky_slot os key [] = none
sticky_slot os key ((n, d) ∷ rest) =
    if is_own os key d.lease_file then some n else sticky_slot os key rest

abbrev pub result_of : Pass → LeaseResult × World
result_of (ends r w) = (r, w)
result_of (goes_on refusals w) = (at_capacity refusals, w)

module _ (c : Context) (key : Text) (ttl max : ℕ) where
  -- The three passes, with the wait for idle shutdowns behind the first.
  unfoldable pub fresh_lease : World → Pass
  fresh_lease w =
      let order = dispatch_order c.want w.slots in
      let existing = numbers w.slots in
      then_pass (claim_each c key ttl max order.0 [] w) λ refused w₁.
        then_pass (wait_each c key ttl max refused refused w₁) λ refusals₂ w₂.
          then_pass (claim_new c key ttl max (max - length existing) 0 existing refusals₂ w₂)
            (claim_each c key ttl max order.1)

  abbrev pub lease_or_renew : World → Option ℕ → LeaseResult × World
  lease_or_renew w (some n) = (leased n true, write_lease n key ttl w)
  lease_or_renew w none = result_of (fresh_lease w)

  -- AcquireLease
  unfoldable pub acquire_lease : World → LeaseResult × World
  acquire_lease w =
      if is_empty key || ttl == 0 || max == 0
      then (bad_arguments, w)
      else lease_or_renew w (sticky_slot (os_of w) key w.slots)

-- One slot of ReleaseLease, under the allocation lock: what becomes of it, and whether its lease
-- was removed (the first Boolean) or could not be read (the second).
unfoldable pub release_one : Text → SlotDir → SlotDir × Bool × Bool
release_one key d = elim d.lease_file [
  | absent ↦ (d, is_empty key, false)
  | unreadable ↦ (d, false, true)
  | present l ↦
      if text_eq l.key key
      then (record d { lease_file = absent }, true, false)
      else (d, false, false)
]

-- ReleaseLease over one group: the slots, the numbers it released, those it could not read.
unfoldable pub release_lease : Text → Slots → Slots × List ℕ × List ℕ
release_lease key [] = ([], [], [])
release_lease key ((n, d) ∷ rest) =
    let (d', released, failed) = release_one key d in
    let (slots, numbers, errors) = release_lease key rest in
    (
      (n, d') ∷ slots,
      if released then n ∷ numbers else numbers,
      if failed then n ∷ errors else errors,
    )

-- CleanupExpiredLease: the slot, and whether the lease was removed; `none` if it cannot be read.
unfoldable pub cleanup_expired_lease : Os → SlotDir → Option (SlotDir × Bool)
cleanup_expired_lease os d = elim d.lease_file [
  | absent ↦ some (d, false)
  | unreadable ↦ none
  | present l ↦
      if is_empty l.key || lease_alive os.now l
      then some (d, false)
      else some (record d { lease_file = absent }, true)
]
