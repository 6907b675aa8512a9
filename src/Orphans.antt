-- ===== src/Orphans.antt =====
-- internal/cli/reap.go: `reap --orphans` and `--purge-orphans` (reapOrphans). A pool root is its
-- groups, each with the listing of its slots, which may fail; output is left out.

pub mod Spared
use simpool.Common.{
  ℕ, Bool, true, false, not, ◌&&◌, ◌||◌, List, [], ◌∷◌, ◌++◌, map, Option, none, some,
  if◌then◌else◌,
}
use simpool.Text.{Text, text_eq}
use simpool.Procs.{Os, Device, live_consumers}
use simpool.Poison.Recovery.{Kernel, Machine, shut_down, deleted, is_nil}
use simpool.Names.{device_name_for_group, is_pool_name}

-- A group directory: its name, and ListSlotNumbersChecked of it.
pub record GroupDir : Type 0 where
  pub name : Text
  pub listing : Option (List ℕ)

-- The set `known`: the names of the devices of all slots; `none` once a listing fails.
abbrev pub with_names : Text → Text → Option (List ℕ) → Option (List Text) → Option (List Text)
with_names root_tag group (some ns) (some known) =
    some (map (device_name_for_group root_tag group) ns ++ known)
with_names root_tag group _ _ = none

unfoldable pub known_names : Text → List GroupDir → Option (List Text)
known_names root_tag [] = some []
known_names root_tag (g ∷ gs) = with_names root_tag g.name g.listing (known_names root_tag gs)

unfoldable pub has_name : Text → List Text → Bool
has_name name [] = false
has_name name (x ∷ xs) = text_eq x name || has_name name xs

-- procs.LiveConsumers found none; a check that failed did not.
abbrev pub unreferenced : Option (List ℕ) → Bool
unreferenced none = false
unreferenced (some pids) = is_nil pids

-- Shut an orphan down and delete it.
unfoldable pub purge_device : Kernel → Text → Machine → Machine
purge_device k udid w =
    let (down, os₁) = k.shutdown udid w.os in
    let (gone, os₂) = k.delete udid os₁ in
    if down
    then record { os = os₂; acts = deleted udid ∷ shut_down udid ∷ w.acts }
    else record { os = os₁; acts = shut_down udid ∷ w.acts }

-- One device of the loop. LiveConsumers is asked at this moment.
unfoldable pub purge_orphan : Kernel → List Text → Bool → Device → Machine → Machine
purge_orphan k known act d w =
    if not (is_pool_name d.name) || has_name d.name known
    then w
    else if act && unreferenced (live_consumers w.os d.udid)
    then purge_device k d.udid w
    else w

unfoldable pub purge_each : Kernel → List Text → Bool → List Device → Machine → Machine
purge_each k known act [] w = w
purge_each k known act (d ∷ ds) w = purge_each k known act ds (purge_orphan k known act d w)

abbrev pub reap_listed :
    Option (List Device) → Option (List Text) → Kernel → Bool → Machine → Machine
reap_listed (some ds) (some known) k act w = purge_each k known act ds w
reap_listed _ _ k act w = w

-- reapOrphans; `groups` is ListGroupDirs, read after the devices.
unfoldable pub reap_orphans :
    Kernel → Text → Option (List GroupDir) → Bool → Bool → Machine → Machine
reap_orphans k root_tag none purge dry_run w = w
reap_orphans k root_tag (some groups) purge dry_run w =
    reap_listed w.os.devices (known_names root_tag groups) k (purge && not dry_run) w
