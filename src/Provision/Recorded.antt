-- ===== src/Provision/Recorded.antt =====
-- What EnsureProvisioned leaves in the slot's directory.
use simpool.Common.{
  ℕ, ◌≡◌, refl, inl, inr, Bool, true, false, not, ◌&&◌, List, [], Option, none, some, arith,
  Bool-cases, ◌∙◌, ltb, ◌+◌, if◌then◌else◌,
}
use simpool.Text.{Text, text_eq}
use simpool.Meta.{Meta, lease_mode}
use simpool.Procs.{Os}
use simpool.Availability.{SlotDir}
use simpool.Group.{World, os_of, slot_at}
use simpool.Group.Slots.{slot_at-put_slot_self}
use simpool.Drivers.{LeaseDriver, current_lease_driver}
use simpool.Provision.{
  Supply, Request, Provisioned, provisioned, Adoption, adopts, adopts_none, adoption_failed,
  adoption_ambiguous, mismatched, replace_device, stamp, finish_provisioning, min_boot_budget,
  after_boot, slimmed, boot_gated, make_ready, after_create, create_device, after_replacement,
  after_adoption, ensure_provisioned,
}

-- The driver that meta.json is to name: none but for a lease.
abbrev pub driver_for : Request → Os → LeaseDriver
driver_for q os =
    if text_eq q.mode lease_mode
    then current_lease_driver os q.parent
    else record { pid = 0; started_at = [] }

-- meta.json names the simulator, the request and the new consumer, and nobody of before.
abbrev pub Stamped : Request → Text → Os → Meta → Type 0
Stamped q udid os m =
    (m.udid ≡ udid)
    × (m.device ≡ q.device)
    × (m.os_version ≡ q.os_version)
    × (m.last_used ≡ os.now)
    × (m.owner_pid ≡ q.pid)
    × (m.mode ≡ q.mode)
    × (m.lease_key ≡ q.lease_key)
    × (m.lease_driver_pid ≡ (driver_for q os).pid)
    × (m.lease_driver_started_at ≡ (driver_for q os).started_at)
    × (m.consumer_pgid ≡ 0)
    × (m.consumer_started_at ≡ [])

stamp-Stamped :
    (s : Supply) (q : Request) (udid : Text) (categories : List Text) (os : Os) (m : Meta)
    → Stamped q udid os (stamp s q udid categories os m)
unfolding stamp
stamp-Stamped s q udid categories os m = elim (Bool-cases (text_eq q.mode lease_mode)) [
  | inl e ↦ rw e (refl, refl, refl, refl, refl, refl, refl, refl, refl, refl, refl)
  | inr e ↦ rw e (refl, refl, refl, refl, refl, refl, refl, refl, refl, refl, refl)
]

-- What a call leaves in the directory `d` of its slot: on success only meta.json has changed, and it
-- is stamped; on an error nothing has.
abbrev pub Leaves : Request → SlotDir → Provisioned × World → Type 0
Leaves q d (provisioned udid, w) =
    (m : Meta) × (slot_at q.number w.slots ≡ record d { meta = m }) × Stamped q udid (os_of w) m
Leaves q d (_, w) = slot_at q.number w.slots ≡ d

-- While a call waits for the boot gate, nobody else writes the directory of its slot.
abbrev pub GateSpares : Supply → Request → Type 0
GateSpares s q = (w : World) → slot_at q.number (s.gate w).1.slots ≡ slot_at q.number w.slots

module _ (s : Supply) (q : Request) (d : SlotDir) where
  abbrev Has : World → Type 0
  Has w = slot_at q.number w.slots ≡ d

  finish-Leaves :
      (udid : Text) (categories : List Text) (m : Meta) (w : World)
      → Has w
      → Leaves q d (finish_provisioning s q udid categories m w)
  unfolding finish_provisioning
  finish-Leaves udid categories m w h = elim (Bool-cases (not q.renewed && s.restore_on)) [
    | inl e ↦ rw e (
      stamp s q udid categories (s.restore udid (os_of w)) m,
      rw (slot_at-put_slot_self, h) refl,
      stamp-Stamped s q udid categories (s.restore udid (os_of w)) m,
    )
    | inr e ↦ rw e (
      stamp s q udid categories (os_of w) m,
      rw (slot_at-put_slot_self, h) refl,
      stamp-Stamped s q udid categories (os_of w) m,
    )
  ]

  slimmed-Has :
      (udid : Text) (categories : List Text) (w : World) → Has w → Has (slimmed s udid categories w)
  slimmed-Has udid categories w h = elim (Bool-cases s.slim_on) [ inl e ↦ rw e h | inr e ↦ rw e h ]

  after_boot-Leaves :
      (udid : Text) (categories : List Text) (m : Meta) (again : Bool) (r : Bool × Os) (w : World)
      → Has w
      → Leaves q d (after_boot s q udid categories m again r w)
  after_boot-Leaves udid categories m again (true, os) w h = finish-Leaves udid categories m _ h
  after_boot-Leaves udid categories m again (false, os) w h = h

  boot_gated-Leaves :
      (udid : Text) (categories : List Text) (m : Meta) (deadline : ℕ) (r : Bool × World)
      → Has r.1
      → Leaves q d (boot_gated s q udid categories m deadline r)
  unfolding boot_gated
  boot_gated-Leaves udid categories m deadline (false, w) h = h
  boot_gated-Leaves udid categories m deadline (true, w) h =
      elim (Bool-cases (ltb deadline ((os_of w).now + min_boot_budget))) [
        | inl e ↦ rw e h
        | inr e ↦ rw e (
            after_boot-Leaves udid categories m _ _ (slimmed s udid categories w)
              (slimmed-Has udid categories w h))
      ]

  module _ (spares : GateSpares s q) where
    make_ready-Leaves :
        (udid : Text) (is_booted : Bool) (m : Meta) (w : World)
        → Has w
        → Leaves q d (make_ready s q udid is_booted m w)
    unfolding make_ready
    make_ready-Leaves udid true m w h = finish-Leaves udid _ m _ (slimmed-Has udid _ w h)
    make_ready-Leaves udid false m w h = boot_gated-Leaves udid _ m _ (s.gate w) (spares w ∙ h)

    after_create-Leaves :
        (runtime : Text) (m : Meta) (r : Option Text × Os) (w : World)
        → Has w
        → Leaves q d (after_create s q runtime m r w)
    after_create-Leaves runtime m (none, os) w h = h
    after_create-Leaves runtime m (some udid, os) w h = make_ready-Leaves udid false _ _ h

    create_device-Leaves :
        (resolved : Option (Text × Text)) (m : Meta) (w : World)
        → Has w
        → Leaves q d (create_device resolved s q m w)
    unfolding create_device
    create_device-Leaves none m w h = h
    create_device-Leaves (some (runtime, device_type)) m w h = after_create-Leaves runtime m _ w h

    after_replacement-Leaves :
        (m : Meta) (r : Bool × World) → Has r.1 → Leaves q d (after_replacement s q m r)
    after_replacement-Leaves m (false, w) h = h
    after_replacement-Leaves m (true, w) h = create_device-Leaves s.resolve m w h

    replace_device-Has : (udid : Text) (w : World) → Has w → Has (replace_device s q udid w).1
    unfolding replace_device
    replace_device-Has udid w h = ground (arith, h)

    after_adoption-Leaves :
        (found : Adoption) (m : Meta) (w : World)
        → Has w
        → Leaves q d (after_adoption found s q m w)
    unfolding after_adoption
    after_adoption-Leaves adopts_none m w h = create_device-Leaves s.resolve m w h
    after_adoption-Leaves adoption_failed m w h = h
    after_adoption-Leaves adoption_ambiguous m w h = h
    after_adoption-Leaves (adopts e) m w h = elim (Bool-cases (mismatched s.resolve s.strict e)) [
      | inl x ↦ rw x (after_replacement-Leaves m _ (replace_device-Has e.udid w h))
      | inr x ↦ rw x (make_ready-Leaves e.udid _ _ w h)
    ]

-- If nobody else writes the directory of the slot while the call waits for the boot gate, then
-- EnsureProvisioned leaves the slot's flock, lease and marker alone, and: on success its meta.json
-- names the simulator, the request and the new consumer with the time, has a lease driver only for a
-- lease, and has forgotten the process group of the consumer before; on every error meta.json, too,
-- is as it was.
pub ensure_provisioned-Leaves :
    (s : Supply) (q : Request) (w : World)
    → GateSpares s q
    → Leaves q (slot_at q.number w.slots) (ensure_provisioned s q w)
unfolding ensure_provisioned
ensure_provisioned-Leaves s q w spares =
    after_adoption-Leaves s q (slot_at q.number w.slots) spares _ _ w refl
