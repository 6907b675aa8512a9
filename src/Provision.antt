-- ===== src/Provision.antt =====
-- internal/pool/provision.go: EnsureProvisioned gives a slot that its caller holds a booted simulator
-- under the slot's own name, and records the new consumer in meta.json. What simctl and simslim do
-- is in `Supply`, the wait for the boot gate included; messages are left out.

pub mod Adopted
pub mod Recorded
pub mod Replaced
use simpool.Common.{
  ℕ, ◌+◌, ◌-◌, Bool, true, false, not, ◌&&◌, ◌||◌, List, [], ◌∷◌, Option, none, some, ltb, ◌==◌,
  if◌then◌else◌, keep,
}
use simpool.Text.{Text, text_eq, is_empty}
use simpool.Meta.{Meta, LeaseFile, absent, unreadable, present, lease_alive, lease_mode}
use simpool.Procs.{Os, Device}
use simpool.Poison.{poisoned, check_poison}
use simpool.Poison.Recovery.{Act, booted, deleted, shut_down}
use simpool.Group.{World, os_of, slot_at, put_slot}
use simpool.Claims.{Context}
use simpool.Slim.{effective_categories}
use simpool.Drivers.{current_lease_driver, driven_by}
use simpool.Reap.{booted_state, listed_device, own_name}

-- provisionDeps and the settings: `resolve` is resolveRuntime's pair of runtime and device type,
-- `slim` SlimDevice, true where it changes the profile and so reboots the simulator that it has
-- booted, `boot_retries` whether BootAndWait shuts the simulator down and boots it again,
-- `gate` AcquireBootGate and what others do while it waits, `slim_on`, `restore_on` and `strict` are
-- SlimEnabled, RestoreEnabled and strictSubstanceEnabled. An error of slim or restore is only printed.
pub record Supply : Type 0 where
  pub context : Context
  pub resolve : Option (Text × Text)
  pub create : Text → Text → Text → Os → Option Text × Os
  pub slim : Text → List Text → Os → Bool × Os
  pub restore : Text → Os → Os
  pub gate : World → Bool × World
  pub boot_retries : Text → Os → Bool
  pub boot_timeout : ℕ
  pub slim_on : Bool
  pub restore_on : Bool
  pub strict : Bool
  pub requested : List Text

-- The slot and who asks for it.
pub record Request : Type 0 where
  pub number : ℕ
  pub device : Text
  pub os_version : Text
  pub renewed : Bool
  pub owner_cmd : Text
  pub mode : Text
  pub lease_key : Text
  pub pid : ℕ
  pub parent : ℕ

pub data Provisioned : Type 0 where
  provisioned : Text → Provisioned
  lookup_failed : Provisioned
  ambiguous_name : Provisioned
  replacement_refused : Provisioned
  no_runtime : Provisioned
  create_failed : Provisioned
  gate_refused : Provisioned
  boot_failed : Provisioned

-- Which simulator there is already.
pub data Adoption : Type 0 where
  adopts : Device → Adoption
  adopts_none : Adoption
  adoption_failed : Adoption
  adoption_ambiguous : Adoption

abbrev pub by_matching : List Device → Adoption
by_matching [] = adopts_none
by_matching (d ∷ []) = adopts d
by_matching (d ∷ e ∷ ds) = adoption_ambiguous

-- The search by name, for a meta.json that names no simulator of this slot.
abbrev pub adopt_by_name : Text → Option (List Device) → Adoption
adopt_by_name want none = adopts_none
adopt_by_name want (some ds) = by_matching (keep (λ d. text_eq d.name want) ds)

abbrev pub adopt_found : Text → Option (List Device) → Option (Option Device) → Adoption
adopt_found want ds none = adoption_failed
adopt_found want ds (some none) = adopt_by_name want ds
adopt_found want ds (some (some d)) =
    if text_eq d.name want then adopts d else adopt_by_name want ds

unfoldable pub adopt : Os → Text → Text → Adoption
adopt os udid want =
    if is_empty udid
    then adopt_by_name want os.devices
    else adopt_found want os.devices (listed_device udid os.devices)

-- substanceOK
unfoldable pub substance_ok : Device → Text → Text → Bool
substance_ok d runtime device_type =
    d.is_available && text_eq d.runtime_id runtime && text_eq d.device_type_id device_type

-- Is the simulator to be replaced?
abbrev pub mismatched : Option (Text × Text) → Bool → Device → Bool
mismatched none strict d = false
mismatched (some (runtime, device_type)) strict d =
    strict && not (substance_ok d runtime device_type)

-- No live lease but the caller's own.
abbrev pub lease_permits : ℕ → Text → LeaseFile → Bool
lease_permits now key absent = true
lease_permits now key unreadable = false
lease_permits now key (present l) = not (lease_alive now l && not (text_eq l.key key))

-- resolveSubstanceMismatch: whether the simulator is gone.
unfoldable pub replace_device : Supply → Request → Text → World → Bool × World
replace_device s q udid w =
    let d = slot_at q.number w.slots in
    let os = os_of w in
    let (down, os₁) = s.context.kernel.shutdown udid os in
    let (gone, os₂) = s.context.kernel.delete udid os₁ in
    if poisoned (check_poison os d.meta).reason
      || not (lease_permits os.now q.lease_key d.lease_file)
    then (false, w)
    else if down
    then (
      gone,
      record w {
        machine = record { os = os₂; acts = deleted udid ∷ shut_down udid ∷ w.machine.acts };
      },
    )
    else (false, record w { machine = record { os = os₁; acts = shut_down udid ∷ w.machine.acts } })

abbrev pub on_os : (Os → Os) → World → World
on_os f w = record w { machine = record w.machine { os = f w.machine.os } }

-- What SaveMeta writes at the end of ensureProvisioned.
unfoldable pub stamp : Supply → Request → Text → List Text → Os → Meta → Meta
stamp s q udid categories os m =
    let driver = current_lease_driver os q.parent in
    let stamped = record m {
      device = q.device;
      os_version = q.os_version;
      udid = udid;
      last_used = os.now;
      owner_pid = q.pid;
      owner_cmd = q.owner_cmd;
      mode = q.mode;
      capabilities = if s.slim_on then categories else m.capabilities;
      lease_key = q.lease_key;
      lease_driver_pid = 0;
      lease_driver_started_at = [];
      consumer_pgid = 0;
      consumer_started_at = [];
    } in
    if text_eq q.mode lease_mode then driven_by driver stamped else stamped

abbrev pub save_meta : ℕ → Meta → World → World
save_meta n m w = record w { slots = put_slot n (record (slot_at n w.slots) { meta = m }) w.slots }

unfoldable pub finish_provisioning :
    Supply → Request → Text → List Text → Meta → World → Provisioned × World
finish_provisioning s q udid categories m w =
    let w₁ = if not q.renewed && s.restore_on then on_os (s.restore udid) w else w in
    (provisioned udid, save_meta q.number (stamp s q udid categories (os_of w₁) m) w₁)

-- simctl.MinBootBudget, a second
abbrev pub min_boot_budget : ℕ
min_boot_budget = 1_000_000_000

-- A boot, and where it is `again` a shutdown and a second one. What was called is recorded, also if
-- the call failed.
abbrev pub boots : Bool → Text → List Act → List Act
boots true udid acts = booted udid ∷ shut_down udid ∷ booted udid ∷ acts
boots false udid acts = booted udid ∷ acts

abbrev pub after_boot :
    Supply → Request → Text → List Text → Meta → Bool → Bool × Os → World → Provisioned × World
after_boot s q udid categories m again (up, os) w =
    let w₁ = record w { machine = record { os = os; acts = boots again udid w.machine.acts } } in
    if up then finish_provisioning s q udid categories m w₁ else (boot_failed, w₁)

-- SlimDevice boots the simulator, and reboots it where it changes the profile.
abbrev pub after_slim : Text → Bool × Os → World → World
after_slim udid (changed, os) w = record w {
  machine = record { os = os; acts = boots changed udid w.machine.acts };
}

abbrev pub slimmed : Supply → Text → List Text → World → World
slimmed s udid categories w =
    if s.slim_on then after_slim udid (s.slim udid categories w.machine.os) w else w

-- The cold path: the gate, the profile and the boot. `deadline` is the caller's.
unfoldable pub boot_gated :
    Supply → Request → Text → List Text → Meta → ℕ → Bool × World → Provisioned × World
boot_gated s q udid categories m deadline (false, w) = (gate_refused, w)
boot_gated s q udid categories m deadline (true, w) =
    let w₁ = slimmed s udid categories w in
    if ltb deadline ((os_of w).now + min_boot_budget)
    then (gate_refused, w)
    else after_boot s q udid categories m (s.boot_retries udid w₁.machine.os)
        (s.context.kernel.boot udid w₁.machine.os) w₁

-- Both paths, for a simulator that a lookup has just seen booted or not.
unfoldable pub make_ready : Supply → Request → Text → Bool → Meta → World → Provisioned × World
make_ready s q udid is_booted m w =
    let categories = effective_categories m.capabilities s.requested in
    if is_booted
    then finish_provisioning s q udid categories m (slimmed s udid categories w)
    else boot_gated s q udid categories m ((os_of w).now + s.boot_timeout) (s.gate w)

abbrev pub after_create :
    Supply → Request → Text → Meta → Option Text × Os → World → Provisioned × World
after_create s q runtime m (none, os) w = (create_failed, on_os (λ o. os) w)
after_create s q runtime m (some udid, os) w =
    make_ready s q udid false (record m { created = os.now; runtime_id = runtime })
      (on_os (λ o. os) w)

unfoldable pub create_device :
    Option (Text × Text) → Supply → Request → Meta → World → Provisioned × World
create_device none s q m w = (no_runtime, w)
create_device (some (runtime, device_type)) s q m w =
    after_create s q runtime m
      (s.create (own_name s.context q.number) device_type runtime w.machine.os) w

abbrev pub after_replacement : Supply → Request → Meta → Bool × World → Provisioned × World
after_replacement s q m (false, w) = (replacement_refused, w)
after_replacement s q m (true, w) = create_device s.resolve s q m w

unfoldable pub after_adoption : Adoption → Supply → Request → Meta → World → Provisioned × World
after_adoption adopts_none s q m w = create_device s.resolve s q m w
after_adoption adoption_failed s q m w = (lookup_failed, w)
after_adoption adoption_ambiguous s q m w = (ambiguous_name, w)
after_adoption (adopts d) s q m w =
    if mismatched s.resolve s.strict d
    then after_replacement s q m (replace_device s q d.udid w)
    else make_ready s q d.udid (text_eq d.state booted_state)
        (record m { runtime_id = d.runtime_id }) w

-- ensureProvisioned
unfoldable pub ensure_provisioned : Supply → Request → World → Provisioned × World
ensure_provisioned s q w =
    let m = (slot_at q.number w.slots).meta in
    after_adoption (adopt (os_of w) m.udid (own_name s.context q.number)) s q m w
