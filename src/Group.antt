-- ===== src/Group.antt =====
-- A device+OS group of the pool on disk (internal/pool/paths.go, lock.go, usecap.go,
-- idleshutdown.go): its slot directories in ascending order, the census of slots in use, and the
-- claim of one slot's flock under the group's allocation lock.
pub mod Slots
pub mod Cap
pub mod Numbers
use simpool.Common.{
  ℕ, zero, suc, ◌+◌, Bool, true, false, not, ◌&&◌, ◌||◌, List, [], ◌∷◌, ◌++◌, map, Option, none,
  some, ltb, ◌==◌, if◌then◌else◌, has, length,
}
use simpool.Text.{Text, text_eq, is_empty}
use simpool.Meta.{Lease, LeaseFile, absent, unreadable, present, no_lease, lease_alive, no_meta}
use simpool.Procs.{Os, alive}
use simpool.Poison.{clean}
use simpool.Poison.Recovery.{Machine}
use simpool.Availability.{
  Availability, SlotDir, LockState, unlocked, locked, unopenable, ShuttingDown, slot_leased,
  slot_busy,
}

abbrev pub Slots : Type 0
Slots = List (ℕ × SlotDir)

-- The group's directory and the machine that it is on.
pub record World : Type 0 where
  pub slots : Slots
  pub machine : Machine

abbrev pub os_of : World → Os
os_of w = w.machine.os

-- ListSlotNumbers
abbrev pub numbers : Slots → List ℕ
numbers [] = []
numbers ((n, d) ∷ rest) = n ∷ numbers rest

-- A slot directory as MkdirAll makes it.
abbrev pub new_dir : SlotDir
new_dir = record { lock = unlocked; lease_file = absent; meta = no_meta; marker = none }

-- What stands at a slot's path; a directory that is not there reads as an empty one.
unfoldable pub slot_at : ℕ → Slots → SlotDir
slot_at n [] = new_dir
slot_at n ((m, d) ∷ rest) = if m == n then d else slot_at n rest

-- Write a slot directory, in its place by number.
unfoldable pub put_slot : ℕ → SlotDir → Slots → Slots
put_slot n d [] = (n, d) ∷ []
put_slot n d ((m, e) ∷ rest) =
    if m == n
    then (n, d) ∷ rest
    else if ltb n m
    then (n, d) ∷ (m, e) ∷ rest
    else (m, e) ∷ put_slot n d rest

-- 2 minutes, in nanoseconds.
abbrev pub shutting_down_stale : ℕ
shutting_down_stale = 120_000_000_000

abbrev marker_live : Os → Option ShuttingDown → Bool
marker_live os none = false
marker_live os (some m) = alive os m.pid && ltb os.now (m.started + shutting_down_stale)

-- ShutdownInProgress
unfoldable pub shutdown_in_progress : Os → SlotDir → Bool
shutdown_in_progress os d = marker_live os d.marker

-- What censusInUse makes of one slot.
pub data Use : Type 0 where
  exempt : Use  -- not in use, or the caller's own lease
  leased_by : Lease → Use
  in_use : Use

abbrev lock_use : Os → SlotDir → LockState → Use
lock_use os d unlocked = exempt
lock_use os d locked = if shutdown_in_progress os d then exempt else in_use
lock_use os d unopenable = exempt

abbrev lease_use : Os → SlotDir → Text → LeaseFile → Use
lease_use os d for_key (present l) =
    if lease_alive os.now l
    then if not (is_empty for_key) && text_eq l.key for_key then exempt else leased_by l
    else lock_use os d d.lock
lease_use os d for_key _ = lock_use os d d.lock

unfoldable pub use_of : Os → Text → SlotDir → Use
use_of os for_key d = lease_use os d for_key d.lease_file

-- slotUse: the number, the state and the lease of one slot in use.
pub record SlotUse : Type 0 where
  pub number : ℕ
  pub availability : Availability

abbrev pub use_record : ℕ → Use → List SlotUse
use_record n exempt = []
use_record n (leased_by l) =
    record {
      number = n;
      availability = record {
        state = slot_leased;
        lease = l;
        poison = clean;
        meta = no_meta;
        own_lease_residue = false;
      };
    }
    ∷ []
use_record n in_use =
    record {
      number = n;
      availability = record {
        state = slot_busy;
        lease = no_lease;
        poison = clean;
        meta = no_meta;
        own_lease_residue = false;
      };
    }
    ∷ []

-- censusInUse: `skip` are the caller's own slots, `skip_n` the slot that it is about to claim.
unfoldable pub census_in_use : Os → List ℕ → ℕ → Text → Slots → List SlotUse
census_in_use os skip skip_n for_key [] = []
census_in_use os skip skip_n for_key ((n, d) ∷ rest) =
    let uses = census_in_use os skip skip_n for_key rest in
    if n == skip_n || has n skip then uses else use_record n (use_of os for_key d) ++ uses

-- The outcome of a claim under the allocation lock.
pub data Claim : Type 0 where
  claim_taken : Claim
  claim_busy : Claim
  claim_over_use_cap : List SlotUse → Claim
  claim_failed : Claim

abbrev try_lock : LockState → ℕ → World → Claim × World
try_lock unlocked n w = (
  claim_taken,
  record w { slots = put_slot n (record (slot_at n w.slots) { lock = locked }) w.slots },
)
try_lock locked n w = (claim_busy, record w { slots = put_slot n (slot_at n w.slots) w.slots })
try_lock unopenable n w =
    (claim_failed, record w { slots = put_slot n (slot_at n w.slots) w.slots })

-- claimSlotLockCapped: the census, MkdirAll and TryLock in one critical section. A `max` of 0 is no
-- cap.
unfoldable pub claim_slot_lock_capped : ℕ → ℕ → List ℕ → Text → World → Claim × World
claim_slot_lock_capped n max mine for_key w =
    let uses = census_in_use (os_of w) mine n for_key w.slots in
    if ltb 0 max && ltb max (length uses + length mine + 1)
    then (claim_over_use_cap uses, w)
    else try_lock (slot_at n w.slots).lock n w

-- claimSlotLock
unfoldable pub claim_slot_lock : ℕ → World → Claim × World
claim_slot_lock n w = claim_slot_lock_capped n 0 [] [] w

-- Lock.Release on a slot's flock.
unfoldable pub unlock : ℕ → World → World
unlock n w = record w {
  slots = put_slot n (record (slot_at n w.slots) { lock = unlocked }) w.slots;
}
