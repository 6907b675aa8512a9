-- ===== src/Reclaims.antt =====
-- internal/pool/lease.go: a session that ends reclaims the processes it left behind
-- (ReclaimReleasedResidue for a released key, ReclaimOwnResidue for `with` and `acquire`). The flock
-- that ReclaimReleasedResidue takes is given back before it returns.
pub mod Reclaimed
use simpool.Common.{
  ℕ, Bool, true, false, not, ◌||◌, List, [], ◌∷◌, Option, none, some, if◌then◌else◌, has,
}
use simpool.Text.{Text, is_empty}
use simpool.Meta.{Meta, Lease, LeaseFile, absent, unreadable, present, lease_alive}
use simpool.Procs.{Os}
use simpool.Poison.{
  Poison, PoisonReason, OwnerDeclaration, by_orphaned_residue, no_declaration, check_poison_for,
}
use simpool.Poison.Recovery.{Recovery, attempt_recovery_for}
use simpool.Availability.{SlotDir, LockState, unlocked, locked, unopenable}
use simpool.Names.{device_name_for_group}
use simpool.Group.{World, os_of, numbers, slot_at}
use simpool.Claims.{Context, is_residue}

abbrev pub reclaimed_by : Poison → Recovery → World → Option (List ℕ) × World
reclaimed_by p r w =
    (if r.recovered then some p.residue_pids else none, record w { machine = r.machine })

-- The common end: the verdict with the session's own declaration, and the recovery. The pids are
-- those killed; `none` is a refusal.
unfoldable pub reclaim_residue : Context → ℕ → OwnerDeclaration → World → Option (List ℕ) × World
reclaim_residue c n d w =
    let m = (slot_at n w.slots).meta in
    let p = check_poison_for (os_of w) m d in
    if is_residue p.reason
    then reclaimed_by p
        (attempt_recovery_for c.kernel (device_name_for_group c.root_tag c.group n) m p d w.machine)
        w
    else (none, w)

abbrev pub free_of_lease : ℕ → LeaseFile → Bool
free_of_lease now absent = true
free_of_lease now unreadable = false
free_of_lease now (present l) = not (lease_alive now l)

abbrev pub free_to_lock : LockState → Bool
free_to_lock unlocked = true
free_to_lock _ = false

-- ReclaimReleasedResidue on slot `n`
unfoldable pub reclaim_released_residue : Context → ℕ → Text → World → Option (List ℕ) × World
reclaim_released_residue c n key w =
    let d = slot_at n w.slots in
    if is_empty key
      || not (has n (numbers w.slots))
      || not (free_to_lock d.lock)
      || not (free_of_lease (os_of w).now d.lease_file)
    then (none, w)
    else reclaim_residue c n (record no_declaration { released_key = key }) w

-- ReclaimOwnResidue by the process `pid`; `udid` is the UDID that its Slot carries.
unfoldable pub reclaim_own_residue : Context → ℕ → Text → ℕ → World → Option (List ℕ) × World
reclaim_own_residue c n udid pid w =
    if is_empty udid
    then (none, w)
    else reclaim_residue c n (record no_declaration { finishing_pid = pid }) w
