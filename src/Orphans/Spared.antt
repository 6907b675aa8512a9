-- ===== src/Orphans/Spared.antt =====
-- Which devices `reap --purge-orphans` may delete.
use simpool.Common.{ℕ, ◌≡◌, ◌≢◌, ◌⊎◌, Bool, true, List, [], ◌∷◌, some, All}
use simpool.Text.{Text}
use simpool.Procs.{Device}
use simpool.Poison.Recovery.{Kernel, Act, shut_down, deleted}
use simpool.Names.{device_name_for_group, is_pool_name}
use simpool.Orphans.{GroupDir, known_names}

-- The group's slots could be listed, and none of them has a device of this name.
abbrev pub NotOf : Text → Text → GroupDir → Type 0
NotOf root_tag name g =
    (ns : List ℕ) × (g.listing ≡ some ns)
    × All (λ n. device_name_for_group root_tag g.name n ≢ name) ns

abbrev pub In : Device → List Device → Type 0
In d [] = ⊥
In d (e ∷ ds) = (d ≡ e) ⊎ In d ds

-- The device with this UDID is listed under a name of the pool that no slot of any group has.
abbrev pub Orphaned : Text → List GroupDir → List Device → Text → Type 0
Orphaned root_tag groups ds udid =
    (d : Device) × In d ds
    × (d.udid ≡ udid)
    × (is_pool_name d.name ≡ true)
    × All (NotOf root_tag d.name) groups

-- What stands behind an act of the pass.
abbrev pub Purges : Text → List GroupDir → List Device → Bool → Act → Type 0
Purges root_tag groups ds act (shut_down u) = (act ≡ true) × Orphaned root_tag groups ds u
Purges root_tag groups ds act (deleted u) = (act ≡ true) × Orphaned root_tag groups ds u
Purges root_tag groups ds act _ = ⊥

module _ (k : Kernel) (root_tag : Text) (groups : List GroupDir) (ds : List Device) (act : Bool)
    (known : List Text) (names : known_names root_tag groups ≡ some known) where
  abbrev P : Act → Type 0
  P = Purges root_tag groups ds act
