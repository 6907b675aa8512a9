-- ===== src/SimRuntime.antt =====
-- internal/procs/simruntime.go: which host processes belong to which simulator, read from what
-- `ps` prints (SimRuntimeProcesses, envForChunk, splitPIDLine, deviceTagUDID, isLaunchdSim). The
-- two calls of ps are parameters.
pub mod Tagged
use simpool.Common.{
  ℕ, zero, suc, ◌-◌, Bool, true, false, not, ◌&&◌, ◌||◌, List, [], ◌∷◌, ◌++◌, Option, none, some,
  ◌==◌, leb, ltb, if◌then◌else◌, all,
}
use mathlib.Core.List.{reverse}
use mathlib.Core.Option
use simpool.Text.{Text, codes, text_eq, is_empty, contains, is_space}
use simpool.Names.Decimal.{is_digit}
use simpool.Names.Parsing.{number_of}

-- SimRuntimeProcess
pub record SimRuntimeProcess : Type 0 where
  pub pid : ℕ
  pub udid : Text

abbrev pub runtime_root_marker : Text
runtime_root_marker = codes ".simruntime/Contents/Resources/RuntimeRoot/"

abbrev pub sim_device_env_tag : Text
sim_device_env_tag = codes "XPC_SIMULATOR_LAUNCHD_NAME=com.apple.CoreSimulator.SimDevice."

abbrev pub pid_chunk : ℕ
pid_chunk = 128

abbrev newline : ℕ
newline = 10

-- strings.Split(s, "\n"), after the part of a line that is read
unfoldable pub lines_from : Text → Text → List Text
lines_from line [] = line ∷ []
lines_from line (c ∷ s) = elim (c == newline) [
  | true ↦ line ∷ lines_from [] s
  | false ↦ lines_from (line ++ c ∷ []) s
]

abbrev pub lines : Text → List Text
lines s = lines_from [] s

unfoldable pub trim_start : Text → Text
trim_start [] = []
trim_start (c ∷ s) = elim (is_space c) [ true ↦ trim_start s | false ↦ c ∷ s ]

-- strings.TrimSpace
unfoldable pub trim_space : Text → Text
trim_space s = reverse (trim_start (reverse (trim_start s)))

abbrev pub prepend : ℕ → Option (Text × Text) → Option (Text × Text)
prepend c none = none
prepend c (some (before, after)) = some (c ∷ before, after)

-- The text before and after the first blank.
unfoldable pub cut_blank : Text → Option (Text × Text)
cut_blank [] = none
cut_blank (c ∷ s) = let rest = cut_blank s in if c == b' ' then some ([], s) else prepend c rest

abbrev pub drop_plus : Text → Text
drop_plus [] = []
drop_plus (c ∷ s) = if c == b'+' then s else c ∷ s

abbrev pub above_init : Option ℕ → Option ℕ
above_init none = none
above_init (some n) = if ltb 1 n then some n else none

-- strconv.Atoi, and pids of at most 1 refused, so negative ones too.
unfoldable pub pid_of : Text → Option ℕ
pid_of s = above_init (number_of (drop_plus s))

abbrev pub beside : Text → Option ℕ → Option (ℕ × Text)
beside line none = none
beside line (some pid) = some (pid, line)

abbrev pub with_pid : Option (Text × Text) → Option (ℕ × Text)
with_pid none = none
with_pid (some (before, after)) = beside after (pid_of before)

-- splitPIDLine
unfoldable pub split_pid_line : Text → Option (ℕ × Text)
split_pid_line line = with_pid (cut_blank (trim_space line))

-- What is left of a text behind a prefix.
unfoldable pub behind : Text → Text → Option Text
behind [] s = some s
behind (d ∷ p) [] = none
behind (d ∷ p) (c ∷ s) = if c == d then behind p s else none

-- The text behind the first occurrence of `tag`.
unfoldable pub behind_first : Text → Text → Option Text
behind_first tag [] = behind tag []
behind_first tag (c ∷ s) = elim (behind tag (c ∷ s)) [
  | some rest ↦ some rest
  | none ↦ behind_first tag s
]

-- The text up to the first blank or tab.
unfoldable pub word_of : Text → Text
word_of [] = []
word_of (c ∷ s) = let rest = word_of s in if c == b' ' || c == 9 then [] else c ∷ rest

abbrev pub if_named : Text → Option Text
if_named [] = none
if_named (c ∷ s) = some (c ∷ s)

abbrev pub tagged_udid : Option Text → Option Text
tagged_udid none = none
tagged_udid (some tail) = if_named (trim_space (word_of tail))

-- deviceTagUDID
unfoldable pub device_tag_udid : Text → Option Text
device_tag_udid text = tagged_udid (behind_first sim_device_env_tag text)

-- The text behind the last slash.
unfoldable pub base_from : Text → Text → Text
base_from word [] = word
base_from word (c ∷ s) = elim (c == b'/') [
  | true ↦ base_from [] s
  | false ↦ base_from (word ++ c ∷ []) s
]

-- isLaunchdSim
unfoldable pub is_launchd_sim : Text → Bool
is_launchd_sim text = text_eq (base_from [] (word_of text)) (codes "launchd_sim")

-- [0-9A-Fa-f-]
unfoldable pub is_udid_char : ℕ → Bool
is_udid_char c = is_digit c || (leb b'A' c && leb c b'F') || (leb b'a' c && leb c b'f') || c == b'-'

-- As many such characters, and then a slash.
unfoldable pub udid_at : ℕ → Text → Option Text
udid_at n [] = none
udid_at zero (c ∷ s) = if c == b'/' then some [] else none
udid_at (suc n) (c ∷ s) =
    let rest = udid_at n s in if is_udid_char c then Option.map (◌∷◌ c) rest else none

abbrev pub udid_behind : Option Text → Option Text
udid_behind none = none
udid_behind (some s) = udid_at 36 s

-- launchdSimUDIDRe: its leftmost match.
unfoldable pub launchd_sim_udid : Text → Option Text
launchd_sim_udid [] = none
launchd_sim_udid (c ∷ s) = elim (udid_behind (behind (codes "/Devices/") (c ∷ s))) [
  | some udid ↦ some udid
  | none ↦ launchd_sim_udid s
]

-- The processes that are found at once, and those whose environment is needed.
pub record Sighted : Type 0 where
  pub found : List SimRuntimeProcess
  pub need_env : List ℕ

abbrev pub found_as : ℕ → Option Text → List SimRuntimeProcess
found_as pid none = []
found_as pid (some udid) = record { pid = pid; udid = udid } ∷ []

abbrev pub sight : Option (ℕ × Text) → Sighted → Sighted
sight none s = s
sight (some (pid, rest)) s =
    if is_launchd_sim rest
    then record s { found = found_as pid (launchd_sim_udid rest) ++ s.found }
    else (if contains rest runtime_root_marker then record s { need_env = pid ∷ s.need_env } else s)

unfoldable pub sight_each : List Text → Sighted
sight_each [] = record { found = []; need_env = [] }
sight_each (l ∷ ls) = sight (split_pid_line l) (sight_each ls)

-- A line of the second pass.
abbrev pub attribute : Option (ℕ × Text) → List SimRuntimeProcess
attribute none = []
attribute (some (pid, rest)) =
    if contains rest runtime_root_marker then found_as pid (device_tag_udid rest) else []

unfoldable pub attribute_each : List Text → List SimRuntimeProcess
attribute_each [] = []
attribute_each (l ∷ ls) = attribute (split_pid_line l) ++ attribute_each ls

unfoldable pub ends_line : Text → Bool
ends_line [] = true
ends_line (c ∷ []) = c == newline
ends_line (c ∷ d ∷ s) = ends_line (d ∷ s)

abbrev pub closed : Option Text → Text
closed none = []
closed (some out) = if ends_line out then out else out ++ newline ∷ []

-- A `ps -Ewwo` of some pids; it fails as a whole when one of them has exited.
abbrev pub EnvForPids : Type 0
EnvForPids = List ℕ → Option Text

unfoldable pub env_one_by_one : EnvForPids → List ℕ → Text
env_one_by_one env [] = []
env_one_by_one env (p ∷ ps) = closed (env (p ∷ [])) ++ env_one_by_one env ps

abbrev pub or_one_by_one : Option Text → EnvForPids → List ℕ → Text
or_one_by_one none env pids = env_one_by_one env pids
or_one_by_one (some out) env pids = out

-- envForChunk
unfoldable pub env_for_chunk : EnvForPids → List ℕ → Text
env_for_chunk env pids = or_one_by_one (env pids) env pids

abbrev pub close_chunk : List ℕ → List (List ℕ)
close_chunk [] = []
close_chunk (p ∷ ps) = (p ∷ ps) ∷ []

-- Runs of `pidChunk` pids; `room` is how many more the chunk in hand takes.
unfoldable pub chunks : ℕ → List ℕ → List ℕ → List (List ℕ)
chunks room chunk [] = close_chunk chunk
chunks zero chunk (p ∷ ps) = chunk ∷ chunks (pid_chunk - 1) (p ∷ []) ps
chunks (suc room) chunk (p ∷ ps) = chunks room (chunk ++ p ∷ []) ps

unfoldable pub attribute_chunks : EnvForPids → List (List ℕ) → List SimRuntimeProcess
attribute_chunks env [] = []
attribute_chunks env (c ∷ cs) =
    attribute_each (lines (env_for_chunk env c)) ++ attribute_chunks env cs

abbrev pub processes_of : Option Text → EnvForPids → Option (List SimRuntimeProcess)
processes_of none env = none
processes_of (some out) env =
    let s = sight_each (lines out) in
    some (s.found ++ attribute_chunks env (chunks pid_chunk [] s.need_env))

-- SimRuntimeProcesses
unfoldable pub sim_runtime_processes : Option Text → EnvForPids → Option (List SimRuntimeProcess)
sim_runtime_processes argv env = processes_of argv env
