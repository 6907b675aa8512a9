-- ===== src/Names.antt =====
-- internal/pool/paths.go: the names of slot directories and of the pool's simulators.
pub mod Decimal
pub mod Parsing
pub mod Groups
pub mod Unique
use simpool.Common.{ℕ, List, [], ◌∷◌, ◌++◌, Bool, Option, none, some, if◌then◌else◌}
use simpool.Text.{Text, codes, has_prefix}
use Decimal.{itoa}

-- filepath.Base(SlotDir(groupDir, n))
unfoldable pub slot_dir_name : ℕ → Text
slot_dir_name n = codes "slot-" ++ itoa n

abbrev pub name_prefix : Text
name_prefix = codes "SIMPOOL_"

-- DeviceNameForGroup, with RootTag(root), eight digits of a SHA-256 sum, as its first argument.
unfoldable pub device_name_for_group : Text → Text → ℕ → Text
device_name_for_group root_tag group n =
    name_prefix ++ (root_tag ++ (codes "_" ++ (group ++ (codes "_slot-" ++ itoa n))))

-- IsPoolName
unfoldable pub is_pool_name : Text → Bool
is_pool_name name = has_prefix name name_prefix
