-- ===== src/SlotCap.antt =====
-- internal/cli/slotcap.go: `simpool reap` brings a group that has more than `max` slots back down to
-- it. `Context.sleep` stands for what other processes do to the group meanwhile; dry runs and output
-- are left out.
pub mod Evictable
pub mod Floor
use simpool.Common.{
  ℕ, zero, suc, ◌+◌, ◌-◌, Bool, true, false, not, ◌&&◌, ◌||◌, List, [], ◌∷◌, Option, none, some,
  ltb, leb, ◌==◌, if◌then◌else◌, has, length, keep,
}
use simpool.Common.Sorting.{sort_by}
use simpool.Text.{Text, text_eq, is_empty}
use simpool.Meta.{Meta, no_meta}
use simpool.Procs.{Os, Device}
use simpool.Poison.{poisoned, check_poison, find_udid, shutdown_state}
use simpool.Poison.Recovery.{Kernel, Machine, shut_down, deleted}
use simpool.Availability.{SlotDir, LockState, unlocked, locked, unopenable}
use simpool.Names.{device_name_for_group}
use simpool.Group.{Slots, World, os_of, numbers, slot_at, put_slot, unlock}
use simpool.Claims.{Context}
use simpool.Reclaims.{free_of_lease}

-- 30 minutes, in nanoseconds.
abbrev pub slot_cap_grace : ℕ
slot_cap_grace = 1_800_000_000_000

-- capCandidate, less the reason's text; `device` is `entry` where `exists` is set.
pub record CapCandidate : Type 0 where
  pub number : ℕ
  pub meta : Meta
  pub device : Option Device
  pub blocked : Bool

abbrev pub blocked_slot : ℕ → Meta → CapCandidate
blocked_slot n m = record { number = n; meta = m; device = none; blocked = true }

abbrev pub evictable : ℕ → Meta → Option Device → CapCandidate
evictable n m device = record { number = n; meta = m; device = device; blocked = false }

-- The clock of a slot: LastUsed, or else the directory's mtime, which may not be known.
abbrev pub idle_since : Meta → Option ℕ → Option ℕ
idle_since m mtime = if m.last_used == 0 then mtime else some m.last_used

abbrev pub within_grace : ℕ → Option ℕ → Bool
within_grace now none = true
within_grace now (some since) = ltb now (since + slot_cap_grace)

-- A slot without a UDID: the device that bears the slot's name, if it is the only one.
abbrev pub by_matches : ℕ → Meta → List Device → CapCandidate
by_matches n m [] = evictable n m none
by_matches n m (d ∷ []) = evictable n (record m { udid = d.udid }) (some d)
by_matches n m (d ∷ e ∷ ds) = blocked_slot n m

abbrev pub by_name : ℕ → Meta → Text → Option (List Device) → CapCandidate
by_name n m want none = blocked_slot n m
by_name n m want (some ds) = by_matches n m (keep (λ d. text_eq d.name want) ds)

abbrev pub by_entry : ℕ → Meta → Text → Option Device → CapCandidate
by_entry n m want none = evictable n m none
by_entry n m want (some d) =
    if text_eq d.name want then evictable n m (some d) else blocked_slot n m

abbrev pub by_udid : ℕ → Meta → Text → Option (List Device) → CapCandidate
by_udid n m want none = blocked_slot n m
by_udid n m want (some ds) = by_entry n m want (find_udid m.udid ds)

-- classifyCapSlot; `want` is DeviceNameForGroup of the slot.
unfoldable pub classify_cap_slot : Text → ℕ → SlotDir → Option ℕ → Os → CapCandidate
classify_cap_slot want n d mtime os =
    if not (free_of_lease os.now d.lease_file)
    then blocked_slot n no_meta
    else if poisoned (check_poison os d.meta).reason
    then blocked_slot n d.meta
    else if within_grace os.now (idle_since d.meta mtime)
    then blocked_slot n d.meta
    else if is_empty d.meta.udid
    then by_name n d.meta want os.devices
    else by_udid n d.meta want os.devices

abbrev pub more_recent : CapCandidate → CapCandidate → Bool
more_recent a b = ltb b.meta.last_used a.meta.last_used

abbrev pub is_free : CapCandidate → Bool
is_free x = not x.blocked

unfoldable pub drop : ℕ → List CapCandidate → List CapCandidate
drop zero xs = xs
drop (suc n) [] = []
drop (suc n) (x ∷ xs) = drop n xs

-- RemoveAll on a slot directory.
unfoldable pub drop_slot : ℕ → Slots → Slots
drop_slot n [] = []
drop_slot n ((m, d) ∷ rest) = if m == n then rest else (m, d) ∷ drop_slot n rest

-- RemoveSlotDirAbove: the count and the removal are one step; `unlisted` is a listing that fails.
unfoldable pub remove_slot_dir_above : Bool → ℕ → ℕ → World → World
remove_slot_dir_above unlisted n max w =
    if unlisted || leb (length (numbers w.slots)) max
    then w
    else record w { slots = drop_slot n w.slots }

-- Shut the device down if it runs, and delete it: did both succeed?
unfoldable pub delete_device : Kernel → Option Device → Text → World → Bool × World
delete_device k none udid w = (true, w)
delete_device k (some d) udid w =
    let running = not (text_eq d.state shutdown_state) in
    let (down, os₁) = if running then k.shutdown udid w.machine.os else (true, w.machine.os) in
    let acts₁ = if running then shut_down udid ∷ w.machine.acts else w.machine.acts in
    let (gone, os₂) = k.delete udid os₁ in
    if down
    then (gone, record w { machine = record { os = os₂; acts = deleted udid ∷ acts₁ } })
    else (false, record w { machine = record { os = os₁; acts = acts₁ } })

module _ (c : Context) (unlisted : World → Bool) (mtime : ℕ → Option ℕ) (max : ℕ) where
  unfoldable pub classify : ℕ → World → CapCandidate
  classify n w =
      classify_cap_slot (device_name_for_group c.root_tag c.group n) n (slot_at n w.slots) (mtime n)
        (os_of w)

  abbrev probe : LockState → ℕ → World → CapCandidate
  probe unlocked n w = classify n w
  probe _ n w = blocked_slot n no_meta

  unfoldable pub candidates : List ℕ → World → List CapCandidate
  candidates [] w = []
  candidates (n ∷ ns) w = probe (slot_at n w.slots).lock n w ∷ candidates ns w

  abbrev pub finish_eviction : ℕ → Bool × World → World
  finish_eviction n (false, w) = unlock n w
  finish_eviction n (true, w) =
      let w₁ = c.sleep w in
      let w₂ = remove_slot_dir_above (unlisted w₁) n max w₁ in
      if has n (numbers w₂.slots) then unlock n w₂ else w₂

  -- One eviction, once LockExistingSlot has the flock.
  unfoldable pub evict : ℕ → CapCandidate → World → World
  evict n re w =
      if re.blocked
      then unlock n w
      else finish_eviction n (delete_device c.kernel re.device re.meta.udid w)

  abbrev pub lock_existing : LockState → ℕ → World → World
  lock_existing unlocked n w =
      let held = record w {
        slots = put_slot n (record (slot_at n w.slots) { lock = locked }) w.slots;
      } in
      evict n (classify n w) held
  lock_existing _ n w = w

  unfoldable pub evict_each : List CapCandidate → World → World
  evict_each [] w = w
  evict_each (x ∷ xs) w =
      let w₁ = c.sleep w in
      let next =
        if has x.number (numbers w₁.slots)
        then lock_existing (slot_at x.number w₁.slots).lock x.number w₁
        else w₁ in
      let rest = evict_each xs next in
      if unlisted w₁ || leb (length (numbers w₁.slots)) max then w₁ else rest

  -- enforceSlotCap
  unfoldable pub enforce_slot_cap : World → World
  enforce_slot_cap w =
      let all = candidates (numbers w.slots) w in
      let free = sort_by more_recent (keep is_free all) in
      let places = max - length (keep (λ x. x.blocked) all) in
      if leb (length (numbers w.slots)) max then w else evict_each (drop places free) w
