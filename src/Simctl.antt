-- ===== src/Simctl.antt =====
-- internal/simctl/simctl.go: which installed runtime serves an OS version (ResolveRuntime,
-- resolveRuntimeByVersion), and what `launchctl list` says of SpringBoard (parseSpringBoardReady).
pub mod Resolved
use simpool.Common.{
  ℕ, Bool, true, false, not, ◌&&◌, ◌||◌, List, [], ◌∷◌, ◌++◌, Option, none, some, if◌then◌else◌,
}
use simpool.Text.{Text, codes, text_eq, has_prefix, fields}
use simpool.SimRuntime.{lines}

pub record DeviceType : Type 0 where
  pub name : Text
  pub identifier : Text

pub record Runtime : Type 0 where
  pub identifier : Text
  pub version : Text
  pub is_available : Bool
  pub device_types : List DeviceType

-- Is it a runtime for this version, exactly or by its prefix?
unfoldable pub matches : Text → Runtime → Bool
matches os_version r =
    r.is_available
    && (text_eq r.version os_version || has_prefix r.version (os_version ++ codes "."))

-- The loop of resolveRuntimeByVersion, which an exact match ends.
unfoldable pub best_runtime : Text → Option Runtime → List Runtime → Option Runtime
best_runtime os_version best [] = best
best_runtime os_version best (r ∷ rs) = elim (matches os_version r) [
  | false ↦ best_runtime os_version best rs
  | true ↦ elim (text_eq r.version os_version) [
    | true ↦ some r
    | false ↦ best_runtime os_version (some r) rs
  ]
]

-- resolveRuntimeByVersion, of a listing that may fail
unfoldable pub resolve_runtime_by_version : Text → Option (List Runtime) → Option Runtime
resolve_runtime_by_version os_version none = none
resolve_runtime_by_version os_version (some runtimes) = best_runtime os_version none runtimes

unfoldable pub find_device_type : Text → List DeviceType → Option Text
find_device_type device [] = none
find_device_type device (t ∷ ts) =
    let rest = find_device_type device ts in
    if text_eq t.name device then some t.identifier else rest

abbrev pub with_device_type : Text → Option Text → Option (Text × Text)
with_device_type runtime_id none = none
with_device_type runtime_id (some type_id) = some (runtime_id, type_id)

abbrev pub of_best : Text → Option Runtime → Option (Text × Text)
of_best device none = none
of_best device (some r) = with_device_type r.identifier (find_device_type device r.device_types)

-- ResolveRuntime
unfoldable pub resolve_runtime : Text → Text → Option (List Runtime) → Option (Text × Text)
resolve_runtime device os_version runtimes =
    of_best device (resolve_runtime_by_version os_version runtimes)

abbrev pub version_of : Option Runtime → Option (Text × Text)
version_of none = none
version_of (some r) = some (r.identifier, r.version)

-- ResolveRuntimeVersion
unfoldable pub resolve_runtime_version : Text → Option (List Runtime) → Option (Text × Text)
resolve_runtime_version os_version runtimes =
    version_of (resolve_runtime_by_version os_version runtimes)

-- A line of `launchctl list` about SpringBoard: whether its first field is a pid.
unfoldable pub spring_board_line : List Text → Option Bool
spring_board_line (pid ∷ status ∷ label ∷ rest) =
    if text_eq label (codes "com.apple.SpringBoard")
    then some (not (text_eq pid (codes "-")))
    else none
spring_board_line _ = none

unfoldable pub spring_board_in : List Text → Bool
spring_board_in [] = false
spring_board_in (l ∷ ls) = elim (spring_board_line (fields l)) [
  | some runs ↦ runs
  | none ↦ spring_board_in ls
]

-- parseSpringBoardReady
abbrev pub parse_spring_board_ready : Text → Bool
parse_spring_board_ready output = spring_board_in (lines output)
