-- ===== src/Poison.antt =====
-- internal/pool/poison.go: whether the previous consumer of a slot whose flock is free is still
-- alive, and which live processes are residue that may be killed.
pub mod Recovery
pub mod Verdict
pub mod PidSets
pub mod Kills
pub mod Disowning
use simpool.Common.{
  ℕ, zero, suc, ◌+◌, ◌*◌, Bool, true, false, not, ◌&&◌, ◌||◌, List, [], ◌∷◌, Option, none, some,
  leb, ◌==◌, if◌then◌else◌, all,
}
use simpool.Text.{Text, codes, text_eq, is_empty}
use simpool.Meta.{Meta, with_mode, acquire_mode, lease_mode}
use simpool.Procs.{
  Os, Device, pgid_alive, process_start_time, live_consumers, is_idb_companion_for,
  is_orphaned_simctl_log_stream_for,
}

pub data PoisonReason : Type 0 where
  not_poisoned : PoisonReason
  by_consumer_pgid : PoisonReason
  by_live_consumers : PoisonReason
  by_check_failure : PoisonReason
  by_orphaned_residue : PoisonReason

pub data ResidueEvidence : Type 0 where
  no_evidence : ResidueEvidence
  target_not_running : ResidueEvidence
  slot_long_idle : ResidueEvidence
  owner_released : ResidueEvidence

-- ownerDeclaration; the zero value declares nothing.
pub record OwnerDeclaration : Type 0 where
  pub released_key : Text
  pub finishing_pid : ℕ

abbrev pub no_declaration : OwnerDeclaration
no_declaration = record { released_key = []; finishing_pid = 0 }

-- Poison, less the error text of a failed check.
pub record Poison : Type 0 where
  pub reason : PoisonReason
  pub pgid : ℕ
  pub residue_pids : List ℕ
  pub residue_evidence : ResidueEvidence
  pub owner : OwnerDeclaration

abbrev pub clean : Poison
clean = record {
  reason = not_poisoned;
  pgid = 0;
  residue_pids = [];
  residue_evidence = no_evidence;
  owner = no_declaration;
}

-- Poison.Poisoned
abbrev pub poisoned : PoisonReason → Bool
poisoned not_poisoned = false
poisoned _ = true

-- 30 minutes, in nanoseconds.
abbrev pub residue_idle_grace : ℕ
residue_idle_grace = 1_800_000_000_000

abbrev pub shutdown_state : Text
shutdown_state = codes "Shutdown"

-- The loop of simctl.Find and of residueDeviceOffline over a listing.
unfoldable pub find_udid : Text → List Device → Option Device
find_udid udid [] = none
find_udid udid (d ∷ ds) = if text_eq d.udid udid then some d else find_udid udid ds

abbrev pub offline_in : Option Device → Bool
offline_in none = true
offline_in (some d) = text_eq d.state shutdown_state

abbrev pub offline_of : Text → Option (List Device) → Bool
offline_of udid none = false
offline_of udid (some []) = false
offline_of udid (some (d ∷ ds)) = offline_in (find_udid udid (d ∷ ds))

-- residueDeviceOffline as its callers read it, `ok && offline`: a listing that failed or came back
-- empty confirms nothing.
unfoldable pub residue_device_offline : Os → Text → Bool
residue_device_offline os udid = offline_of udid os.devices

-- time.Since(meta.LastUsed) >= ResidueIdleGrace
unfoldable pub residue_slot_long_idle : Os → Meta → Bool
residue_slot_long_idle os m =
    not (m.last_used == 0) && leb (m.last_used + residue_idle_grace) os.now

unfoldable pub is_reclaimable_residue : Os → Text → ℕ → Bool
is_reclaimable_residue os udid pid =
    is_idb_companion_for os pid udid || is_orphaned_simctl_log_stream_for os pid udid

-- ownerDeclaration.declares
unfoldable pub declares : OwnerDeclaration → Meta → Bool
declares d m =
    (not (is_empty d.released_key)
      && text_eq m.mode lease_mode
      && text_eq m.lease_key d.released_key)
    || (not (d.finishing_pid == 0)
        && (text_eq m.mode with_mode || text_eq m.mode acquire_mode)
        && m.owner_pid == d.finishing_pid)

-- allReclaimableResidue: the evidence, or `none` where the Go code's third result is false. Its
-- first result is `live` itself.
unfoldable pub all_reclaimable_residue :
    Os → Meta → List ℕ → OwnerDeclaration → Option ResidueEvidence
all_reclaimable_residue os m [] d = none
all_reclaimable_residue os m (p ∷ ps) d =
    if not (all (is_reclaimable_residue os m.udid) (p ∷ ps))
    then none
    else if residue_device_offline os m.udid
    then some target_not_running
    else if residue_slot_long_idle os m
    then some slot_long_idle
    else if declares d m
    then some owner_released
    else none

abbrev pub residue_verdict : List ℕ → OwnerDeclaration → Option ResidueEvidence → Poison
residue_verdict live d none = record clean { reason = by_live_consumers }
residue_verdict live d (some e) = record {
  reason = by_orphaned_residue;
  pgid = 0;
  residue_pids = live;
  residue_evidence = e;
  owner = d;
}

abbrev pub live_verdict : Os → Meta → OwnerDeclaration → Option (List ℕ) → Poison
live_verdict os m d none = record clean { reason = by_check_failure }
live_verdict os m d (some []) = clean
live_verdict os m d (some (p ∷ ps)) =
    residue_verdict (p ∷ ps) d (all_reclaimable_residue os m (p ∷ ps) d)

-- checkPoison
unfoldable pub check_poison_for : Os → Meta → OwnerDeclaration → Poison
check_poison_for os m d =
    if is_empty m.udid
    then clean
    else if not (m.consumer_pgid == 0) && pgid_alive os m.consumer_pgid
    then record clean { reason = by_consumer_pgid; pgid = m.consumer_pgid }
    else live_verdict os m d (live_consumers os m.udid)

-- CheckPoison: what an observer, who declares nothing, finds.
unfoldable pub check_poison : Os → Meta → Poison
check_poison os m = check_poison_for os m no_declaration

abbrev pub started_as : Text → Option Text → Bool
started_as recorded none = false
started_as recorded (some s) = text_eq s recorded

-- VerifyConsumerIdentity
unfoldable pub verify_consumer_identity : Os → Meta → Bool
verify_consumer_identity os m =
    not (is_empty m.consumer_started_at)
    && not (m.consumer_pgid == 0)
    && started_as m.consumer_started_at (process_start_time os m.consumer_pgid)

-- Poison.ResidueDisownable
abbrev pub is_target_not_running : ResidueEvidence → Bool
is_target_not_running target_not_running = true
is_target_not_running _ = false

abbrev pub residue_disownable : Poison → Bool
residue_disownable p = elim p.reason [
  | by_orphaned_residue ↦ is_target_not_running p.residue_evidence
  | _ ↦ false
]
