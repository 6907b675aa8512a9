-- ===== src/Ghosts.antt =====
-- internal/cli/runtimeimages.go: the pass of `reap` that removes slots no acquisition can use again,
-- since their simulator is gone or unavailable or no installed runtime provides their group's OS
-- (findGhostSlots, pruneGhostSlots), over a root with one group.
pub mod Found
pub mod Pruned
use simpool.Common.{
  ℕ, Bool, true, false, not, ◌&&◌, ◌||◌, List, [], ◌∷◌, ◌++◌, Option, none, some, ◌==◌,
  if◌then◌else◌, has, any,
}
use simpool.Text.{Text, codes, text_eq, has_prefix, is_empty}
use simpool.Meta.{Meta}
use simpool.Procs.{Os, Device}
use simpool.Poison.{poisoned, check_poison}
use simpool.Poison.Recovery.{deleted}
use simpool.Availability.{LockState, unlocked, locked, unopenable}
use simpool.Group.{World, os_of, numbers, slot_at, unlock}
use simpool.Claims.{Context}
use simpool.Reclaims.{free_of_lease}
use simpool.Simctl.{Runtime}
use simpool.Reap.{last_udid, own_name, remove_slot_dir}
use simpool.Reap.Slot.{lock_slot, give_up}

-- versionMatches
unfoldable pub version_matches : Text → Text → Bool
version_matches a b =
    not (is_empty a)
    && not (is_empty b)
    && (text_eq a b || has_prefix a (b ++ codes ".") || has_prefix b (a ++ codes "."))

-- The text behind the last '@', if there is one.
unfoldable pub behind_at : Text → Option Text
behind_at [] = none
behind_at (c ∷ cs) = elim (behind_at cs) [
  | some rest ↦ some rest
  | none ↦ if c == b'@' then some cs else none
]

abbrev pub or_empty : Option Text → Text
or_empty none = []
or_empty (some t) = t

-- groupOSVersion
unfoldable pub group_os_version : Text → Text
group_os_version group = or_empty (behind_at group)

unfoldable pub available_versions : List Runtime → List Text
available_versions [] = []
available_versions (r ∷ rs) =
    let rest = available_versions rs in if r.is_available then r.version ∷ rest else rest

-- `provided`
abbrev pub provides : List Text → Text → Bool
provides versions os_version = is_empty os_version || any (version_matches os_version) versions

-- The map byName: the last entry of a name stands.
unfoldable pub last_named : Text → List Device → Option Device
last_named name [] = none
last_named name (d ∷ ds) = elim (last_named name ds) [
  | some e ↦ some e
  | none ↦ if text_eq d.name name then some d else none
]

-- Less the reason's text
pub record GhostSlot : Type 0 where
  pub number : ℕ
  pub device : Option Device

abbrev pub or_named : Text → List Device → Option Device → Option Device
or_named want ds none = last_named want ds
or_named want ds (some d) = some d

-- The simulator of a slot: by its UDID, or else by its name.
unfoldable pub device_of : Text → Text → List Device → Option Device
device_of udid want ds = or_named want ds (if is_empty udid then none else last_udid udid ds)

abbrev pub ghost_of : ℕ → Bool → Text → Option Device → List GhostSlot
ghost_of n provided udid (some d) =
    if d.is_available then [] else record { number = n; device = some d } ∷ []
ghost_of n provided udid none =
    if not provided || not (is_empty udid) then record { number = n; device = none } ∷ [] else []

unfoldable pub ghosts_among : Context → Bool → List Device → List ℕ → World → List GhostSlot
ghosts_among c provided ds [] w = []
ghosts_among c provided ds (n ∷ ns) w =
    let udid = (slot_at n w.slots).meta.udid in
    ghost_of n provided udid (device_of udid (own_name c n) ds) ++ ghosts_among c provided ds ns w

-- A listing that failed, and one that is empty, say nothing.
abbrev pub ghosts_listed :
    Context → List Text → Option (List Device) → World → Option (List GhostSlot)
ghosts_listed c [] devices w = none
ghosts_listed c (v ∷ vs) none w = none
ghosts_listed c (v ∷ vs) (some []) w = none
ghosts_listed c (v ∷ vs) (some (d ∷ ds)) w =
    some
      (ghosts_among c (provides (v ∷ vs) (group_os_version c.group)) (d ∷ ds) (numbers w.slots) w)

-- findGhostSlots; `unlisted` is a listing of the slots that fails.
unfoldable pub find_ghosts :
    Context → Option (List Runtime) → Bool → World → Option (List GhostSlot)
find_ghosts c none unlisted w = none
find_ghosts c (some runtimes) unlisted w =
    if unlisted then none else ghosts_listed c (available_versions runtimes) (os_of w).devices w

-- The simulator that goes with the slot: deleted only under the slot's own name. The Boolean is
-- false where its deletion fails.
unfoldable pub delete_ghost_device : Context → ℕ → Option Device → World → Bool × World
delete_ghost_device c n none w = (true, w)
delete_ghost_device c n (some d) w =
    let (gone, os) = c.kernel.delete d.udid w.machine.os in
    if text_eq d.name (own_name c n)
    then (gone, record w { machine = record { os = os; acts = deleted d.udid ∷ w.machine.acts } })
    else (true, w)

abbrev pub finish_pruning : Context → ℕ → Bool × World → World
finish_pruning c n (false, w) = unlock n w
finish_pruning c n (true, w) = give_up n (remove_slot_dir c n w)

-- One ghost, with its flock held.
unfoldable pub prune_locked : Context → GhostSlot → World → World
prune_locked c g w =
    let d = slot_at g.number w.slots in
    if not (free_of_lease (os_of w).now d.lease_file)
      || poisoned (check_poison (os_of w) d.meta).reason
    then unlock g.number w
    else finish_pruning c g.number (delete_ghost_device c g.number g.device w)

abbrev pub prune_if : LockState → Context → GhostSlot → World → World
prune_if unlocked c g w = prune_locked c g (lock_slot g.number w)
prune_if _ c g w = w

-- One ghost, in the world in which its turn comes.
abbrev pub prune_next : Context → GhostSlot → World → World
prune_next c g w =
    if has g.number (numbers w.slots) then prune_if (slot_at g.number w.slots).lock c g w else w

-- LockExistingSlot waits for the allocation lock before it looks at the slot.
unfoldable pub prune_each : Context → List GhostSlot → World → World
prune_each c [] w = w
prune_each c (g ∷ gs) w = prune_each c gs (prune_next c g (c.sleep w))

abbrev pub prune_found : Option (List GhostSlot) → Context → Bool → World → World
prune_found none c dry_run w = w
prune_found (some gs) c dry_run w = if dry_run then w else prune_each c gs w

-- pruneGhostSlots
unfoldable pub prune_ghost_slots : Context → Option (List Runtime) → Bool → Bool → World → World
prune_ghost_slots c runtimes unlisted dry_run w =
    prune_found (find_ghosts c runtimes unlisted w) c dry_run w
