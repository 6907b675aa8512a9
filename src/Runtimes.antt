-- ===== src/Runtimes.antt =====
-- internal/cli/runtimes.go: the processes that deleted simulators leave running
-- (findOrphanedRuntimes, reapOrphanRuntimes).
pub mod Deleted
pub mod Swept
use simpool.Common.{
  ℕ, Bool, true, false, not, ◌&&◌, ◌||◌, List, [], ◌∷◌, ◌++◌, map, Option, none, some, ltb,
  if◌then◌else◌, any,
}
use simpool.Common.Sorting.{sort_by}
use simpool.Text.{Text, text_eq}
use simpool.Procs.{Device}
use simpool.Slim.{text_lt}
use simpool.Poison.Recovery.{Kernel, Machine, kill_each}
use simpool.SimRuntime.{SimRuntimeProcess}

pub record OrphanedRuntime : Type 0 where
  pub udid : Text
  pub pids : List ℕ

-- The set `live`
abbrev pub is_live : List Device → Text → Bool
is_live ds udid = any (λ d. text_eq d.udid udid) ds

-- byUDID[p.UDID] = append(byUDID[p.UDID], p.PID)
unfoldable pub add_pid : SimRuntimeProcess → List OrphanedRuntime → List OrphanedRuntime
add_pid p [] = record { udid = p.udid; pids = p.pid ∷ [] } ∷ []
add_pid p (o ∷ os) =
    let rest = add_pid p os in
    if text_eq o.udid p.udid then record o { pids = o.pids ++ p.pid ∷ [] } ∷ os else o ∷ rest

unfoldable pub grouped_by_udid :
    List Device → List OrphanedRuntime → List SimRuntimeProcess → List OrphanedRuntime
grouped_by_udid ds acc [] = acc
grouped_by_udid ds acc (p ∷ ps) =
    grouped_by_udid ds (if is_live ds p.udid then acc else add_pid p acc) ps

abbrev pub udid_before : OrphanedRuntime → OrphanedRuntime → Bool
udid_before a b = text_lt a.udid b.udid

abbrev pub sort_pids : OrphanedRuntime → OrphanedRuntime
sort_pids o = record o { pids = sort_by ltb o.pids }

-- findOrphanedRuntimes, of a snapshot that was taken before the devices are listed
unfoldable pub find_orphaned_runtimes :
    Option (List SimRuntimeProcess) → Option (List Device) → Option (List OrphanedRuntime)
find_orphaned_runtimes none devices = none
find_orphaned_runtimes (some found) none = none
find_orphaned_runtimes (some found) (some []) = none
find_orphaned_runtimes (some found) (some (d ∷ ds)) =
    some (map sort_pids (sort_by udid_before (grouped_by_udid (d ∷ ds) [] found)))

unfoldable pub kill_runtimes : Kernel → List OrphanedRuntime → Machine → Machine
kill_runtimes k [] w = w
kill_runtimes k (o ∷ os) w = kill_runtimes k os (kill_each k o.pids w)

abbrev pub kill_found : Option (List OrphanedRuntime) → Kernel → Bool → Bool → Machine → Machine
kill_found none k purge dry_run w = w
kill_found (some os) k purge dry_run w = if not purge || dry_run then w else kill_runtimes k os w

-- reapOrphanRuntimes
unfoldable pub reap_orphan_runtimes :
    Kernel → Option (List SimRuntimeProcess) → Bool → Bool → Machine → Machine
reap_orphan_runtimes k found purge dry_run w =
    kill_found (find_orphaned_runtimes found w.os.devices) k purge dry_run w
