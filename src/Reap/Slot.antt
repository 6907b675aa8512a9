-- ===== src/Reap/Slot.antt =====
-- internal/cli/reap.go: the pass over one slot (reapSlot), by its flock and its lease; and
-- shutdownReleasedQuarantine, which `simpool release` runs.
use simpool.Common.{ℕ, Bool, true, false, not, ◌||◌, Option, none, some, if◌then◌else◌, has}
use simpool.Text.{is_empty}
use simpool.Meta.{LeaseFile, absent, unreadable, present, lease_alive}
use simpool.Poison.{poisoned, check_poison}
use simpool.Availability.{SlotDir, LockState, unlocked, locked, unopenable}
use simpool.Group.{World, os_of, numbers, slot_at, put_slot, unlock}
use simpool.Claims.{Context}
use simpool.Leases.{cleanup_expired_lease}
use simpool.Reclaims.{free_of_lease, free_to_lock}
use simpool.Reap.{Reaper, Limits, shutdown_quarantined, reap_poisoned, reap_idle}
use simpool.Reap.Held.{reap_held_slot}

-- Does the pass go on past the slot's lease?
pub data Stage : Type 0 where
  stops : World → Stage
  passes : World → Stage

abbrev pub cleaned : ℕ → World → Option (SlotDir × Bool) → Stage
cleaned n w none = stops w
cleaned n w (some (d, false)) = stops w
cleaned n w (some (d, true)) = passes (record w { slots = put_slot n d w.slots })

-- CleanupExpiredLease reads the lease again, once the allocation lock is this process's.
unfoldable pub clean_up : Context → ℕ → World → Stage
clean_up c n w =
    let w₁ = c.sleep w in cleaned n w₁ (cleanup_expired_lease (os_of w₁) (slot_at n w₁.slots))

-- The part of reapSlot that reads lease.json.
unfoldable pub past_lease : LeaseFile → Context → Bool → ℕ → World → Stage
past_lease absent c dry_run n w = passes w
past_lease unreadable c dry_run n w = stops w
past_lease (present l) c dry_run n w =
    if lease_alive (os_of w).now l
    then stops w
    else if is_empty l.key || dry_run
    then passes w
    else clean_up c n w

-- The part of reapSlot behind it.
unfoldable pub reap_free : Reaper → Limits → ℕ → Bool → World → World
reap_free r o n keep_warm w =
    let m = (slot_at n w.slots).meta in
    let p = check_poison (os_of w) m in
    if poisoned p.reason then reap_poisoned r o n m p w else reap_idle r o n m keep_warm w

abbrev pub if_passes : Stage → (World → World) → World
if_passes (stops w) f = w
if_passes (passes w) f = f w

abbrev pub lock_slot : ℕ → World → World
lock_slot n w = record w {
  slots = put_slot n (record (slot_at n w.slots) { lock = locked }) w.slots;
}

-- The flock is on the lock file, which a removal has taken with the directory.
abbrev pub give_up : ℕ → World → World
give_up n w = if has n (numbers w.slots) then unlock n w else w

unfoldable pub reap_by : LockState → Reaper → Limits → ℕ → Bool → World → World
reap_by unlocked r o n keep_warm w =
    let file = (slot_at n w.slots).lease_file in
    give_up n (
      if_passes (past_lease file r.context o.dry_run n (lock_slot n w)) (reap_free r o n keep_warm))
reap_by locked r o n keep_warm w = reap_held_slot r o n w
reap_by unopenable r o n keep_warm w = w

-- reapSlot on a slot that is listed
unfoldable pub reap_slot : Reaper → Limits → ℕ → Bool → World → World
reap_slot r o n keep_warm w = reap_by (slot_at n w.slots).lock r o n keep_warm w

-- shutdownReleasedQuarantine on slot `n`; its flock is given back before it returns.
unfoldable pub shutdown_released_quarantine : Reaper → ℕ → World → Bool × World
shutdown_released_quarantine r n w =
    let d = slot_at n w.slots in
    let p = check_poison (os_of w) d.meta in
    let (shut, w₁) = shutdown_quarantined r n d.meta false (lock_slot n w) in
    if not (has n (numbers w.slots))
      || not (free_to_lock d.lock)
      || not (free_of_lease (os_of w).now d.lease_file)
      || not (poisoned p.reason)
    then (false, w)
    else (shut, unlock n w₁)
