-- ===== src/Images.antt =====
-- internal/cli/runtimeimages.go: which runtime images something still needs (decideRuntimes,
-- collectGroupUsage, gatherRuntimeFacts), less the reasons' texts.
pub mod Unused
use simpool.Common.{
  ℕ, ◌+◌, Bool, true, false, not, ◌&&◌, ◌||◌, List, [], ◌∷◌, ◌++◌, map, Option, none, some, ltb,
  ◌==◌, if◌then◌else◌, any,
}
use simpool.Text.{Text, codes, text_eq, is_empty}
use simpool.Meta.{LeaseFile, absent, unreadable, present, lease_alive}
use simpool.Procs.{Device}
use simpool.Availability.{SlotDir, LockState, unlocked, locked, unopenable}
use simpool.Group.{Slots}
use simpool.Ghosts.{version_matches, group_os_version}

-- simctl.RuntimeImage, as far as it is read.
pub record RuntimeImage : Type 0 where
  pub runtime_identifier : Text
  pub version : Text
  pub platform_identifier : Text

-- simctl.SimulatorSDK, as far as it is read.
pub record SimulatorSdk : Type 0 where
  pub platform : Text
  pub version : Text

pub record GroupUsage : Type 0 where
  pub os_version : Text
  pub last_used : ℕ
  pub runtime_ids : List Text
  pub busy : Bool

pub record RuntimeFacts : Type 0 where
  pub images : List RuntimeImage
  pub sdks : List SimulatorSdk
  pub groups : List GroupUsage
  pub running : List Text  -- The keys of the map.
  pub now : ℕ
  pub window : ℕ

-- groupWants
unfoldable pub group_wants : GroupUsage → RuntimeImage → Bool
group_wants g img =
    any (λ id. not (is_empty id) && text_eq id img.runtime_identifier) g.runtime_ids
    || version_matches g.os_version img.version

abbrev pub is_sdk_of : RuntimeImage → SimulatorSdk → Bool
is_sdk_of img sdk =
    text_eq sdk.platform img.platform_identifier && version_matches sdk.version img.version

abbrev pub used_within : RuntimeFacts → RuntimeImage → GroupUsage → Bool
used_within f img g =
    not (g.last_used == 0) && group_wants g img && ltb f.now (g.last_used + f.window)

-- decideRuntime: is the image needed?
unfoldable pub decide_runtime : RuntimeFacts → RuntimeImage → Bool
decide_runtime f img =
    any (λ id. text_eq id img.runtime_identifier) f.running
    || any (λ g. g.busy && group_wants g img) f.groups
    || any (is_sdk_of img) f.sdks
    || any (used_within f img) f.groups

-- decideRuntimes
abbrev pub decide_runtimes : RuntimeFacts → List (RuntimeImage × Bool)
decide_runtimes f = map (λ img. (img, decide_runtime f img)) f.images

abbrev pub leased_now : ℕ → LeaseFile → Bool
leased_now now absent = false
leased_now now unreadable = true
leased_now now (present l) = lease_alive now l

-- Is a slot held or leased, or can that not be read?
abbrev pub busy_slot : ℕ → LockState → LeaseFile → Bool
busy_slot now unlocked file = leased_now now file
busy_slot now locked file = true
busy_slot now unopenable file = true

abbrev pub add_slot : ℕ → SlotDir → GroupUsage → GroupUsage
add_slot now d g = record g {
  last_used = if ltb g.last_used d.meta.last_used then d.meta.last_used else g.last_used;
  runtime_ids =
      if is_empty d.meta.runtime_id then g.runtime_ids else g.runtime_ids ++ d.meta.runtime_id ∷ [];
  busy = g.busy || busy_slot now d.lock d.lease_file;
}

unfoldable pub add_slots : ℕ → Slots → GroupUsage → GroupUsage
add_slots now [] g = g
add_slots now ((n, d) ∷ s) g = add_slots now s (add_slot now d g)

abbrev pub no_usage : Text → GroupUsage
no_usage name = record {
  os_version = group_os_version name;
  last_used = 0;
  runtime_ids = [];
  busy = false;
}

-- collectGroupUsage, of the listing of one group
abbrev pub group_usage : ℕ → Text × Slots → GroupUsage
group_usage now (name, s) = add_slots now s (no_usage name)

unfoldable pub running_ids : List Device → List Text
running_ids [] = []
running_ids (d ∷ ds) =
    let rest = running_ids ds in
    if text_eq d.state (codes "Shutdown") then rest else d.runtime_id ∷ rest

abbrev pub facts_of :
    ℕ → ℕ → List RuntimeImage → List SimulatorSdk → List Device → List (Text × Slots) → RuntimeFacts
facts_of now window images sdks devices groups = record {
  images = images;
  sdks = sdks;
  groups = map (group_usage now) groups;
  running = running_ids devices;
  now = now;
  window = window;
}

abbrev pub with_devices :
    ℕ
    → ℕ
    → List RuntimeImage
    → List SimulatorSdk
    → Option (List Device)
    → Option (List (Text × Slots))
    → Option RuntimeFacts
with_devices now window images sdks none groups = none
with_devices now window images sdks (some []) groups = none
with_devices now window images sdks (some (d ∷ ds)) none = none
with_devices now window images sdks (some (d ∷ ds)) (some groups) =
    some (facts_of now window images sdks (d ∷ ds) groups)

-- gatherRuntimeFacts: an input that cannot be read, or is empty where it never is, refuses.
unfoldable pub gather_runtime_facts :
    ℕ
    → ℕ
    → Option (List RuntimeImage)
    → List SimulatorSdk
    → Option (List Device)
    → Option (List (Text × Slots))
    → Option RuntimeFacts
gather_runtime_facts now window none sdks devices groups = none
gather_runtime_facts now window (some []) sdks devices groups =
    some (facts_of now window [] [] [] [])
gather_runtime_facts now window (some (i ∷ is)) [] devices groups = none
gather_runtime_facts now window (some (i ∷ is)) (sdk ∷ sdks) devices groups =
    with_devices now window (i ∷ is) (sdk ∷ sdks) devices groups
