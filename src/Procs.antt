-- ===== src/Procs.antt =====
-- internal/procs/procs.go: what the pool asks of the process table. An `Os` is one observation of
-- the machine: the answers of kill(2) with signal 0, of `ps`, of `pgrep`, of `simctl list devices`
-- and of the clock. Its fields are not code of the repository.
use simpool.Common.{
  ℕ, zero, suc, Bool, true, false, not, ◌&&◌, ◌||◌, List, [], ◌∷◌, ◌++◌, Option, none, some, ◌==◌,
  if◌then◌else◌, has, keep, length,
}
use simpool.Text.{Text, codes, text_eq, has_suffix, contains, fields, is_empty}

-- The result of kill(pid, 0) or kill(-pgid, 0).
pub data Signal0 : Type 0 where
  delivered : Signal0
  no_process : Signal0  -- ESRCH
  refused : Signal0  -- EPERM or another error

-- An entry of `simctl list devices`, simctl.DeviceEntry.
pub record Device : Type 0 where
  pub name : Text
  pub udid : Text
  pub state : Text
  pub is_available : Bool
  pub runtime_id : Text
  pub device_type_id : Text

pub record Os : Type 0 where
  pub now : ℕ
  pub signal_pid : ℕ → Signal0
  pub signal_group : ℕ → Signal0
  pub start_time : ℕ → Option Text
  pub parent_of : ℕ → Option ℕ
  pub command_line : ℕ → Text  -- empty if it cannot be read
  pub pgrep : Text → Option (List ℕ)  -- `none` if pgrep could not run
  pub snapshot : Option (List (ℕ × ℕ))  -- the pairs (pid, ppid) of `ps -axo`
  pub devices : Option (List Device)  -- `none` if the listing failed

-- Alive(pid)
unfoldable pub alive : Os → ℕ → Bool
alive os zero = false
alive os (suc p) = elim (os.signal_pid (suc p)) [ delivered ↦ true | _ ↦ false ]

-- PGIDAlive(pgid): any error but ESRCH reads as alive.
unfoldable pub pgid_alive : Os → ℕ → Bool
pgid_alive os zero = false
pgid_alive os (suc p) = elim (os.signal_group (suc p)) [ no_process ↦ false | _ ↦ true ]

-- ProcessStartTime(pid) and ParentPID(pid) refuse pid 0 before they ask `ps`.
unfoldable pub process_start_time : Os → ℕ → Option Text
process_start_time os zero = none
process_start_time os (suc p) = os.start_time (suc p)

unfoldable pub parent_pid : Os → ℕ → Option ℕ
parent_pid os zero = none
parent_pid os (suc p) = os.parent_of (suc p)

-- tree[p]: the direct children of p, in the snapshot's order.
unfoldable pub children : List (ℕ × ℕ) → ℕ → List ℕ
children [] p = []
children ((pid, ppid) ∷ rest) p =
    let more = children rest p in if ppid == p then pid ∷ more else more

-- The closure `walk` of Descendants over a list of children: `out` is what it has collected, and
-- `seen` is the root and `out`. One unit of fuel pays for one level of the tree.
unfoldable pub walk : ℕ → List (ℕ × ℕ) → ℕ → List ℕ → List ℕ → List ℕ
walk fuel tree root [] out = out
walk zero tree root (c ∷ cs) out = out
walk (suc fuel) tree root (c ∷ cs) out = elim (has c (root ∷ out)) [
  | true ↦ walk (suc fuel) tree root cs out
  | false ↦ walk (suc fuel) tree root cs (walk fuel tree root (children tree c) (out ++ c ∷ []))
]

-- Descendants(pid), with a level of fuel for each process of the snapshot.
unfoldable pub descendants : Os → ℕ → List ℕ
descendants os pid = elim os.snapshot [
  | none ↦ []
  | some tree ↦ walk (suc (length tree)) tree pid (children tree pid) []
]

-- The set `exclude` of LiveConsumers: the simulator's launchd_sim roots and all below them.
unfoldable pub runtime_tree : Os → Text → List ℕ → List ℕ
runtime_tree os udid [] = []
runtime_tree os udid (root ∷ roots) =
    let rest = runtime_tree os udid roots in
    if contains (os.command_line root) udid then root ∷ (descendants os root ++ rest) else rest

abbrev outside : List ℕ → List ℕ → List ℕ
outside exclude = keep λ p. not (has p exclude)

abbrev without_runtime : Os → Text → List ℕ → Option (List ℕ) → Option (List ℕ)
without_runtime os udid matches none = none
without_runtime os udid matches (some roots) = some (outside (runtime_tree os udid roots) matches)

abbrev live_of : Os → Text → Option (List ℕ) → Option (List ℕ)
live_of os udid none = none
live_of os udid (some []) = some []
live_of os udid (some (m ∷ ms)) = without_runtime os udid (m ∷ ms) (os.pgrep (codes "launchd_sim"))

-- LiveConsumers(udid); `none` is "could not check".
unfoldable pub live_consumers : Os → Text → Option (List ℕ)
live_consumers os udid = live_of os udid (os.pgrep udid)

-- bin == name || strings.HasSuffix(bin, "/"+name)
unfoldable pub is_binary : Text → Text → Bool
is_binary name bin = text_eq bin name || has_suffix bin (b'/' ∷ name)

-- The loop of IsIdbCompanionFor over fields[1:]: the first `--udid` that has a word behind it.
unfoldable pub udid_flag_is : Text → List Text → Bool
udid_flag_is udid [] = false
udid_flag_is udid (w ∷ []) = false
udid_flag_is udid (w ∷ v ∷ ws) =
    if text_eq w (codes "--udid") then text_eq v udid else udid_flag_is udid (v ∷ ws)

abbrev companion_argv : Text → List Text → Bool
companion_argv udid [] = false
companion_argv udid (bin ∷ ws) = is_binary (codes "idb_companion") bin && udid_flag_is udid ws

-- IsIdbCompanionFor(pid, udid)
unfoldable pub is_idb_companion_for : Os → ℕ → Text → Bool
is_idb_companion_for os pid udid = companion_argv udid (fields (os.command_line pid))

abbrev log_stream_argv : Text → List Text → Bool
log_stream_argv udid (bin ∷ a ∷ b ∷ c ∷ d ∷ ws) =
    is_binary (codes "simctl") bin
    && text_eq a (codes "spawn")
    && text_eq b udid
    && text_eq c (codes "log")
    && text_eq d (codes "stream")
log_stream_argv udid _ = false

abbrev is_launchd : Option ℕ → Bool
is_launchd none = false
is_launchd (some p) = p == 1

-- IsOrphanedSimctlLogStreamFor(pid, udid)
unfoldable pub is_orphaned_simctl_log_stream_for : Os → ℕ → Text → Bool
is_orphaned_simctl_log_stream_for os pid udid =
    not (is_empty udid)
    && log_stream_argv udid (fields (os.command_line pid))
    && is_launchd (parent_pid os pid)

abbrev holder_argv : Text → List Text → Bool
holder_argv subcommand (bin ∷ word ∷ ws) =
    is_binary (codes "simpool") bin && text_eq word subcommand
holder_argv subcommand _ = false

-- IsSimpoolHolder(pid, subcommand)
unfoldable pub is_simpool_holder : Os → ℕ → Text → Bool
is_simpool_holder os pid subcommand = holder_argv subcommand (fields (os.command_line pid))
