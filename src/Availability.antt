-- ===== src/Availability.antt =====
-- internal/pool/availability.go: the one verdict on whether a slot can be handed to a consumer,
-- for the paths that decide (which hold its flock) and for the views that report.
pub mod Exemption
pub mod Views
use simpool.Common.{
  ℕ, Bool, true, false, not, ◌&&◌, ◌||◌, List, [], ◌∷◌, Option, none, some, if◌then◌else◌,
}
use simpool.Text.{Text, text_eq, is_empty}
use simpool.Meta.{
  Meta, Lease, LeaseFile, absent, unreadable, present, no_lease, no_meta, lease_alive, lease_mode,
}
use simpool.Procs.{Os}
use simpool.Poison.{
  Poison, PoisonReason, by_live_consumers, by_orphaned_residue, clean, poisoned, check_poison,
}

pub data SlotState : Type 0 where
  slot_free slot_busy slot_leased slot_quarantined slot_unverifiable : SlotState

-- Availability, less the error text.
pub record Availability : Type 0 where
  pub state : SlotState
  pub lease : Lease
  pub poison : Poison
  pub meta : Meta
  pub own_lease_residue : Bool

-- A slot's flock as a non-blocking attempt finds it.
pub data LockState : Type 0 where
  unlocked locked unopenable : LockState

-- The marker of an idle shutdown, shutting-down.json.
pub record ShuttingDown : Type 0 where
  pub pid : ℕ
  pub started : ℕ

-- One slot directory. `marker` is `none` where the file is missing or cannot be parsed.
pub record SlotDir : Type 0 where
  pub lock : LockState
  pub lease_file : LeaseFile
  pub meta : Meta
  pub marker : Option ShuttingDown

-- The two reasons that can be a lease session's own residue.
abbrev pub is_consumer_residue : PoisonReason → Bool
is_consumer_residue by_live_consumers = true
is_consumer_residue by_orphaned_residue = true
is_consumer_residue _ = false

-- Availability.leaseOwner: the key of the lease, else the last one that meta.json recorded.
abbrev pub lease_owner : Meta → Lease → Text
lease_owner m l = if is_empty l.key then m.lease_key else l.key

-- ownLeaseResidue
unfoldable pub own_lease_residue : Meta → Lease → PoisonReason → Text → Bool
own_lease_residue m l reason for_key =
    if is_empty for_key || not (text_eq m.mode lease_mode)
    then false
    else if not (is_consumer_residue reason)
    then false
    else if not (is_empty l.key)
    then text_eq l.key for_key
    else text_eq m.lease_key for_key

-- What ReadLease returns when it returns no error.
abbrev pub lease_of : LeaseFile → Lease
lease_of absent = no_lease
lease_of unreadable = no_lease
lease_of (present l) = l

-- slotAvailabilityLocked past the reading of lease.json and meta.json.
unfoldable pub availability_of : Os → Meta → Lease → Text → Availability
availability_of os m l for_key =
    if lease_alive os.now l && not (text_eq l.key for_key)
    then record {
      state = slot_leased;
      lease = l;
      poison = clean;
      meta = m;
      own_lease_residue = false;
    }
    else let p = check_poison os m in
      let own = own_lease_residue m l p.reason for_key in
      let own_of_viewer = is_empty for_key && own_lease_residue m l p.reason (lease_owner m l) in
      record {
        state = if not (poisoned p.reason) || own then slot_free else slot_quarantined;
        lease = l;
        poison = p;
        meta = m;
        own_lease_residue = poisoned p.reason && (own || own_of_viewer);
      }

-- Go's zero Availability.
abbrev pub no_availability : Availability
no_availability = record {
  state = slot_free;
  lease = no_lease;
  poison = clean;
  meta = no_meta;
  own_lease_residue = false;
}

abbrev pub unverifiable : Meta → Availability
unverifiable m = record {
  state = slot_unverifiable;
  lease = no_lease;
  poison = clean;
  meta = m;
  own_lease_residue = false;
}

unfoldable pub availability_by : LeaseFile → Os → Meta → Text → Availability
availability_by absent os m for_key = availability_of os m no_lease for_key
availability_by unreadable os m for_key = unverifiable m
availability_by (present l) os m for_key = availability_of os m l for_key

-- slotAvailabilityLocked
unfoldable pub slot_availability_locked : Os → SlotDir → Text → Availability
slot_availability_locked os s for_key = availability_by s.lease_file os s.meta for_key

-- SlotAvailability, by what a probe of the flock finds.
unfoldable pub availability_if : LockState → Os → SlotDir → Text → Availability
availability_if unlocked os s for_key = slot_availability_locked os s for_key
availability_if locked os s for_key = record {
  state = slot_busy;
  lease = no_lease;
  poison = clean;
  meta = s.meta;
  own_lease_residue = false;
}
availability_if unopenable os s for_key = unverifiable s.meta

unfoldable pub slot_availability : Os → SlotDir → Text → Availability
slot_availability os s for_key = availability_if s.lock os s for_key
