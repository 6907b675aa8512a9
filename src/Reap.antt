-- ===== src/Reap.antt =====
-- internal/cli/reap.go and idle.go: what `simpool reap` looks at and does in a slot that is free.
-- The group is as `World` has it; output is left out, and so are the run directories.
pub mod Held
pub mod Slot
pub mod Idle
pub mod Quarantined
pub mod Leased
pub mod Stuck
use simpool.Common.{
  ℕ, ◌+◌, ◌*◌, ◌%◌, Bool, true, false, not, ◌&&◌, ◌||◌, List, [], ◌∷◌, Option, none, some, ltb, leb,
  ◌==◌, if◌then◌else◌, has,
}
use simpool.Text.{Text, codes, text_eq, is_empty}
use simpool.Meta.{Meta}
use simpool.Procs.{Os, Device}
use simpool.Poison.{Poison, find_udid}
use simpool.Poison.Recovery.{shut_down, deleted, scrubbed, disown_poisoned_slot}
use simpool.Availability.{ShuttingDown}
use simpool.Names.{device_name_for_group}
use simpool.Group.{World, os_of, numbers, slot_at, put_slot}
use simpool.SlotCap.{drop_slot}
use simpool.Claims.{Context, recover_slot}

-- What a pass runs in: `snapshot` is the device listing of snapshotDevices, if there is one,
-- `marks` whether the marker of a shutdown can be written, `mtime` what os.Stat says of a slot's
-- directory, `holders` and `child_pids` what `lsof -t` and `pgrep -P` answer.
pub record Reaper : Type 0 where
  pub context : Context
  pub pid : ℕ
  pub snapshot : Option (List Device)
  pub marks : Bool
  pub mtime : ℕ → Option ℕ
  pub holders : ℕ → Os → Option (List ℕ)
  pub child_pids : ℕ → Os → Option (List ℕ)

-- The flags of `reap` that the pass over one slot reads.
pub record Limits : Type 0 where
  pub cold : ℕ
  pub stuck_after : ℕ
  pub purge_minutes : ℕ
  pub scrub_minutes : ℕ
  pub dry_run : Bool
  pub disown : Bool

abbrev pub booted_state : Text
booted_state = codes "Booted"

-- The map of snapshotDevices: the last entry of a UDID stands.
unfoldable pub last_udid : Text → List Device → Option Device
last_udid udid [] = none
last_udid udid (d ∷ ds) = elim (last_udid udid ds) [
  | some e ↦ some e
  | none ↦ if text_eq d.udid udid then some d else none
]

abbrev pub listed_device : Text → Option (List Device) → Option (Option Device)
listed_device udid none = none
listed_device udid (some ds) = some (find_udid udid ds)

-- findDevice, as snapshotDevices leaves it: `none` is a listing that failed.
unfoldable pub find_device : Option (List Device) → Os → Text → Option (Option Device)
find_device none os udid = listed_device udid os.devices
find_device (some ds) os udid = some (last_udid udid ds)

-- pool.DeviceNameForGroup(root, group, n)
abbrev pub own_name : Context → ℕ → Text
own_name c n = device_name_for_group c.root_tag c.group n

-- The device is there, in this state and under this name.
abbrev pub in_state : Text → Text → Option (Option Device) → Bool
in_state state want (some (some d)) = text_eq d.state state && text_eq d.name want
in_state state want _ = false

abbrev pub write_marker : Bool → ℕ → Option ShuttingDown → World → World
write_marker false n marker w = w
write_marker true n marker w = record w {
  slots = put_slot n (record (slot_at n w.slots) { marker = marker }) w.slots;
}

abbrev pub shut_device : Context → Text → World → World
shut_device c udid w = record w {
  machine = record {
    os = (c.kernel.shutdown udid w.machine.os).1;
    acts = shut_down udid ∷ w.machine.acts;
  };
}

-- idleShutdown between MarkShuttingDown and the shutdown: what an acquirer sees meanwhile.
abbrev pub shutting : Reaper → ℕ → World → World
shutting r n w =
    let marker : ShuttingDown = record { pid = r.pid; started = (os_of w).now } in
    write_marker r.marks n (some marker) w

-- idleShutdown; its error is only printed.
unfoldable pub idle_shutdown : Reaper → ℕ → Text → World → World
idle_shutdown r n udid w = write_marker r.marks n none (shut_device r.context udid (shutting r n w))

-- shutdownQuarantined: whether the slot's own device was found booted.
unfoldable pub shutdown_quarantined : Reaper → ℕ → Meta → Bool → World → Bool × World
shutdown_quarantined r n m dry_run w =
    let found = find_device r.snapshot (os_of w) m.udid in
    if is_empty m.udid || not (in_state booted_state (own_name r.context n) found)
    then (false, w)
    else if dry_run
    then (true, w)
    else (true, idle_shutdown r n m.udid w)

-- DisownPoisonedSlot on slot `n`, with what it writes to meta.json.
unfoldable pub disown_slot : Context → ℕ → Meta → Poison → World → World
disown_slot c n m p w =
    let (outcome, m', machine) = disown_poisoned_slot c.kernel (own_name c n) m p w.machine in
    record {
      slots = put_slot n (record (slot_at n w.slots) { meta = m' }) w.slots;
      machine = machine;
    }

-- The branch of reapSlot for a slot that is poisoned.
unfoldable pub reap_poisoned : Reaper → Limits → ℕ → Meta → Poison → World → World
reap_poisoned r o n m p w =
    let (recovered, w₁) = recover_slot r.context n m p w in
    let (shut, w₂) = shutdown_quarantined r n m false w₁ in
    if o.dry_run
    then w
    else if recovered
    then w₁
    else if o.disown
    then disown_slot r.context n m p w₁
    else w₂

-- 999999 hours, in nanoseconds.
abbrev pub never_used : ℕ
never_used = 3_599_996_400_000_000_000

-- `idle < bound`, where `idle` is measured at `now` and may be negative.
unfoldable pub idle_below : ℕ → Meta → ℕ → Bool
idle_below now m bound =
    if m.last_used == 0 then ltb never_used bound else ltb now (m.last_used + bound)

-- time.Duration(n) * time.Minute, an int64. A product that wraps to below 0 reads as 0: an idle
-- time that has passed --cold is below neither.
unfoldable pub minutes : ℕ → ℕ
minutes n =
    let product = n * 60_000_000_000 % 18_446_744_073_709_551_616 in
    if ltb product 9_223_372_036_854_775_808 then product else 0

-- RemoveSlotDir: others act until the allocation lock is this process's.
unfoldable pub remove_slot_dir : Context → ℕ → World → World
remove_slot_dir c n w = let w₁ = c.sleep w in record w₁ { slots = drop_slot n w₁.slots }

-- scrubSlot, at the idle time measured at `now`
unfoldable pub scrub_slot : Reaper → Limits → ℕ → Meta → World → World
scrub_slot r o now m w =
    if o.scrub_minutes == 0 || idle_below now m (minutes o.scrub_minutes) || o.dry_run
    then w
    else record w {
      machine = record {
        os = r.context.kernel.scrub m.udid w.machine.os;
        acts = scrubbed m.udid ∷ w.machine.acts;
      };
    }

-- The purge of a slot whose simulator is shut down.
unfoldable pub purge_slot : Reaper → Limits → ℕ → ℕ → Meta → World → World
purge_slot r o now n m w =
    let (gone, os) = r.context.kernel.delete m.udid w.machine.os in
    let w₁ = record w { machine = record { os = os; acts = deleted m.udid ∷ w.machine.acts } } in
    if o.purge_minutes == 0 || idle_below now m (minutes o.purge_minutes) || o.dry_run
    then w
    else if gone
    then remove_slot_dir r.context n w₁
    else w₁

-- 2 minutes, in nanoseconds.
abbrev pub dead_slot_grace : ℕ
dead_slot_grace = 120_000_000_000

abbrev pub past_grace : ℕ → Option ℕ → Bool
past_grace now none = false
past_grace now (some modified) = leb (modified + dead_slot_grace) now

-- removeDeadSlotDir
unfoldable pub remove_dead_slot_dir : Reaper → Limits → ℕ → World → World
remove_dead_slot_dir r o n w =
    if o.purge_minutes == 0 || not (past_grace (os_of w).now (r.mtime n)) || o.dry_run
    then w
    else remove_slot_dir r.context n w

-- The end of reapSlot, by the device that meta.json names.
unfoldable pub reap_device :
    Option (Option Device) → Reaper → Limits → ℕ → Meta → Bool → World → World
reap_device none r o n m keep_warm w = w
reap_device (some none) r o n m keep_warm w = w
reap_device (some (some d)) r o n m keep_warm w =
    let now = (os_of w).now in
    if not (text_eq d.name (own_name r.context n))
    then w
    else if text_eq d.state booted_state
    then (if keep_warm || o.dry_run then w else idle_shutdown r n m.udid w)
    else purge_slot r o now n m (scrub_slot r o now m w)

-- reapSlot on a slot that is free and not poisoned.
unfoldable pub reap_idle : Reaper → Limits → ℕ → Meta → Bool → World → World
reap_idle r o n m keep_warm w =
    if idle_below (os_of w).now m o.cold
    then w
    else if is_empty m.udid
    then remove_dead_slot_dir r o n w
    else reap_device (find_device r.snapshot (os_of w) m.udid) r o n m keep_warm w
