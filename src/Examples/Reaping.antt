-- ===== src/Examples/Reaping.antt =====
-- `simpool reap` on the group of Scene.
use simpool.Common.{
  ℕ, ◌-◌, ◌≡◌, ◌≢◌, refl, ◌++◌, ◌≤◌, true, false, List, [], ◌∷◌, none, some, length, ◌==◌,
  if◌then◌else◌,
}
use mathlib.Core.List.{Perm}
use simpool.Text.{codes, text_eq, has_prefix}
use simpool.Meta.{no_meta, absent}
use simpool.Procs.{Os, is_simpool_holder, delivered, no_process}
use simpool.Poison.Recovery.{shut_down, deleted, scrubbed, booted, killed, Act}
use simpool.Poison.Kills.{Adds}
use simpool.Availability.{SlotDir, locked}
use simpool.Group.{World, numbers, slot_at}
use simpool.Reap.{
  Reaper, Limits, last_udid, find_device, idle_shutdown, shutdown_quarantined, disown_slot,
  reap_poisoned, idle_below, minutes, remove_slot_dir, scrub_slot, purge_slot, remove_dead_slot_dir,
  reap_device, reap_idle,
}
use simpool.Reap.Held.{is_stuck, kill_stuck, reap_held_slot}
use simpool.Reap.Slot.{
  clean_up, past_lease, reap_free, reap_by, reap_slot, shutdown_released_quarantine,
}
use simpool.Reap.Leased.{Passed, Reaps, reap_slot-Reaps, reap_slot-leased}
use simpool.Reap.Stuck.{KillsStuck, reap_held_slot-Kills}
use simpool.SlotCap.{drop_slot}
use simpool.Warm.{
  WarmCandidate, take_warm, drop_warm, classify_for, keepable, warm_kept, warm_candidates,
  shut_excess, enforce_warm_cap, warm_census, boot_slot, boot_cold, enforce_warm_floor,
}
use simpool.Warm.Bounded.{AddsUpTo}
use simpool.Warm.Recent.{UsedBefore, Shuts, enforce_warm_cap-Shuts}
use simpool.Orphans.{
  GroupDir, known_names, has_name, purge_device, purge_orphan, purge_each, reap_orphans,
}
use simpool.Passes.{Passes, latest_use, group_idle_beyond, reap_each, full_passes, reap_group}
use simpool.Passes.Fast.{Gentle, reap_group-Gentle}
use simpool.Simctl.{
  Runtime, best_runtime, resolve_runtime_by_version, find_device_type, resolve_runtime, matches,
}
use simpool.Simctl.Resolved.{Resolves, resolve_runtime_by_version-Resolves}
use simpool.Ghosts.{
  version_matches, behind_at, group_os_version, available_versions, last_named, device_of,
  ghosts_among, find_ghosts, delete_ghost_device, prune_locked, prune_each, prune_ghost_slots,
}
use simpool.Ghosts.Pruned.{PrunesFound, prune_ghost_slots-Prunes}
use simpool.Examples.Runs.{run_lease}
use simpool.Examples.Scene.{minute, noon, quiet, device_0, world, context, machine_of}

abbrev reaper : Reaper
reaper = record {
  context = context;
  pid = 4;
  snapshot = none;
  marks = true;
  mtime = λ n. some 1;
  holders = λ n os. some (8 ∷ []);
  child_pids = λ n os. some [];
}

-- No time limit but --purge, of a minute.
abbrev limits : Limits
limits = record {
  cold = 0;
  stuck_after = minute;
  purge_minutes = 1;
  scrub_minutes = 1;
  dry_run = false;
  disown = false;
}

-- The machine with the simulator of slot 0 booted.
abbrev warm_os : Os
warm_os = record quiet { devices = some (record device_0 { state = codes "Booted" } ∷ []) }

-- Process 8 is the `with` that owns slot 1.
abbrev stuck_os : Os
stuck_os = record quiet {
  signal_pid = λ p. if p == 8 then delivered else no_process;
  command_line = λ p. if p == 8 then codes "/opt/simpool with -- make" else [];
}

abbrev stuck_slot : SlotDir
stuck_slot = record {
  lock = locked;
  lease_file = absent;
  meta = record no_meta { mode = codes "with"; owner_pid = 8; last_used = noon - minute };
  marker = none;
}

abbrev warm_world : World
warm_world = record world { machine = machine_of warm_os }

abbrev stuck_world : World
stuck_world = record { slots = (1, stuck_slot) ∷ []; machine = machine_of stuck_os }

unfoldable run_reap : ℕ → World → List Act
unfolding run_lease is_simpool_holder last_udid find_device idle_shutdown shutdown_quarantined
    disown_slot reap_poisoned idle_below minutes remove_slot_dir scrub_slot purge_slot
    remove_dead_slot_dir reap_device reap_idle is_stuck kill_stuck reap_held_slot clean_up
    past_lease reap_free reap_by reap_slot shutdown_released_quarantine drop_slot
run_reap n w = (reap_slot reaper limits n false w).machine.acts

-- A simulator that is shut down and was last used a minute ago is cleaned up and deleted.
reap_purges : run_reap 0 world ≡ deleted (codes "U") ∷ scrubbed (codes "U") ∷ []
unfolding run_reap
reap_purges = refl

-- One that is booted is only shut down.
reap_shuts : run_reap 0 warm_world ≡ shut_down (codes "U") ∷ []
unfolding run_reap
reap_shuts = refl

reap_kills_stuck : run_reap 1 stuck_world ≡ killed 8 ∷ []
unfolding run_reap
reap_kills_stuck = refl

-- The simulator of a released slot is left to reap unless the slot is quarantined.
release_leaves : (shutdown_released_quarantine reaper 0 warm_world).0 ≡ false
unfolding run_reap
release_leaves = refl

unfoldable run_warm : World → World
unfolding run_reap take_warm drop_warm classify_for keepable warm_kept warm_candidates shut_excess
    enforce_warm_cap warm_census boot_slot boot_cold enforce_warm_floor
run_warm w = enforce_warm_floor context false (λ w. some (1, 2)) 35 2 w

floor_boots : (run_warm world).machine.acts ≡ booted (codes "U") ∷ []
unfolding run_warm
floor_boots = refl

ceiling_shuts :
    (enforce_warm_cap context false 0 warm_world).machine.acts ≡ shut_down (codes "U") ∷ []
unfolding run_warm
ceiling_shuts = refl

warm_keeps : warm_kept 1 world ≡ 0 ∷ []
unfolding run_warm
warm_keeps = refl

abbrev group_dirs : List GroupDir
group_dirs = record { name = codes "G"; listing = some (1 ∷ []) } ∷ []

-- Slot 0 is gone, and its device is not.
orphan_goes :
    (reap_orphans context.kernel (codes "ab") (some group_dirs) true false (machine_of quiet)).acts
    ≡ deleted (codes "U") ∷ shut_down (codes "U") ∷ []
unfolding run_reap known_names has_name purge_device purge_orphan purge_each reap_orphans
orphan_goes = refl

abbrev all_passes : Passes
all_passes = record {
  limits = limits;
  max = 4;
  warm = 1;
  stale_after = minute;
  full_every = minute;
  memory = λ w. some (1, 2);
  floor = 35;
  unlisted = λ w. false;
}

-- The fast pass leaves the simulator that is shut down.
fast_pass :
    (reap_group reaper all_passes false warm_world).machine.acts ≡ shut_down (codes "U") ∷ []
unfolding run_warm latest_use group_idle_beyond reap_each full_passes reap_group
fast_pass = refl

abbrev runtimes : List Runtime
runtimes =
    record {
      identifier = codes "R18";
      version = codes "18.2";
      is_available = true;
      device_types = record { name = codes "iPhone 16"; identifier = codes "T16" } ∷ [];
    }
    ∷ []

-- The runtime of the simulator of slot 0 is gone.
abbrev ghost_world : World
ghost_world = record world {
  machine =
      machine_of (record quiet { devices = some (record device_0 { is_available = false } ∷ []) });
}

unfoldable run_prune : World → World
unfolding run_reap version_matches behind_at group_os_version available_versions last_named
    device_of ghosts_among find_ghosts delete_ghost_device prune_locked prune_each prune_ghost_slots
run_prune w = prune_ghost_slots context (some runtimes) false false w

prune_deletes : (run_prune ghost_world).machine.acts ≡ deleted (codes "U") ∷ []
unfolding run_prune
prune_deletes = refl

prune_spares : (run_prune world).machine.acts ≡ []
unfolding run_prune
prune_spares = refl

prune_ghost_slots-Prunes_example :
    Adds
      (PrunesFound context
        (find_ghosts context (some runtimes) false ghost_world)
        false
        ghost_world)
      ghost_world.machine
      (prune_ghost_slots context (some runtimes) false false ghost_world).machine
prune_ghost_slots-Prunes_example =
    prune_ghost_slots-Prunes context (some runtimes) false false ghost_world (λ w. refl)

-- A version without its minor part finds a runtime.
runtime_resolves :
    resolve_runtime (codes "iPhone 16") (codes "18") (some runtimes)
    ≡ some (codes "R18", codes "T16")
unfolding run_reap matches best_runtime resolve_runtime_by_version find_device_type resolve_runtime
    text_eq has_prefix
runtime_resolves = refl

resolve_runtime_by_version-Resolves_example :
    Resolves (codes "18") runtimes (resolve_runtime_by_version (codes "18") (some runtimes))
resolve_runtime_by_version-Resolves_example =
    resolve_runtime_by_version-Resolves (codes "18") runtimes

reap_slot-Reaps_example :
    Adds
      (λ a.
        (v : World) × Passed reaper limits 0 false (λ w. refl) world v
        × Reaps reaper limits 0 false v a)
      world.machine
      (reap_slot reaper limits 0 false world).machine
unfolding run_reap
reap_slot-Reaps_example = reap_slot-Reaps reaper limits 0 false (λ w. refl) world refl

reap_slot-leased_example :
    ((reap_slot reaper limits 3 false world).machine ≡ world.machine)
    × ((k : ℕ) → slot_at k (reap_slot reaper limits 3 false world).slots ≡ slot_at k world.slots)
unfolding run_reap
reap_slot-leased_example = reap_slot-leased reaper limits 3 false world refl refl

reap_held_slot-Kills_example :
    Adds
      (KillsStuck reaper limits stuck_slot.meta stuck_os)
      stuck_world.machine
      (reap_held_slot reaper limits 1 stuck_world).machine
unfolding run_reap
reap_held_slot-Kills_example = reap_held_slot-Kills reaper limits 1 stuck_world

enforce_warm_cap-Shuts_example :
    (kept excess : List WarmCandidate) × Perm
      (kept ++ excess)
      (warm_candidates context false (numbers warm_world.slots) warm_world)
    × (length kept ≤ 1)
    × (excess ≢ [] → length kept ≡ 1)
    × UsedBefore excess kept
    × AddsUpTo
        (length excess)
        (Shuts context false excess warm_world)
        warm_world
        (enforce_warm_cap context false 1 warm_world)
enforce_warm_cap-Shuts_example = enforce_warm_cap-Shuts context false (λ w. refl) 1 warm_world

reap_group-Gentle_example :
    Adds Gentle warm_world.machine (reap_group reaper all_passes false warm_world).machine
reap_group-Gentle_example = reap_group-Gentle reaper all_passes (λ w. refl) refl warm_world
