-- ===== src/Provision/Replaced.antt =====
-- Which simulators EnsureProvisioned adopts, and which it may shut down and delete.
use simpool.Common.{◌≡◌, ◌⊎◌, true, false, some}
use simpool.Text.{Text}
use simpool.Meta.{Meta}
use simpool.Procs.{Device}
use simpool.Poison.{not_poisoned, check_poison}
use simpool.Poison.Recovery.{Act, booted, shut_down, deleted}
use simpool.Group.{World, os_of, slot_at}
use simpool.Reap.{own_name}
use simpool.Provision.{
  Supply, Request, adopts, adopts_none, adopt, mismatched, lease_permits, replace_device,
}

-- What stands behind a replacement: the simulator that the call found, under the slot's own name, is
-- not of the runtime and type that were asked for, or not available; no process of a previous
-- consumer lives; and no other key has a live lease.
abbrev pub Replaceable : Supply → Request → World → Text → Type 0
Replaceable s q w udid =
    let slot = slot_at q.number w.slots in
    let want = own_name s.context q.number in
    (d : Device) × (adopt (os_of w) slot.meta.udid want ≡ adopts d)
    × (d.udid ≡ udid)
    × (d.name ≡ want)
    × (mismatched s.resolve s.strict d ≡ true)
    × ((check_poison (os_of w) slot.meta).reason ≡ not_poisoned)
    × (lease_permits (os_of w).now q.lease_key slot.lease_file ≡ true)

-- The call from `w` creates its simulator in the world `v`: where it found none to adopt, at its
-- start, and otherwise after it has removed one that is not as asked for.
abbrev pub CreatesIn : Supply → Request → World → World → Type 0
CreatesIn s q w v =
    let found =
      adopt (os_of w) (slot_at q.number w.slots).meta.udid (own_name s.context q.number) in
    ((found ≡ adopts_none) × (v ≡ w))
    ⊎ ((d : Device) × (found ≡ adopts d)
        × (mismatched s.resolve s.strict d ≡ true)
        × (replace_device s q d.udid w ≡ (true, v)))

-- The simulator that the call works with: the one that it found and does not replace, or one that it
-- has just created for the runtime and type that were asked for, under the slot's own name.
abbrev pub Own : Supply → Request → World → Text → Type 0
Own s q w udid =
    let want = own_name s.context q.number in
    ((d : Device) × (adopt (os_of w) (slot_at q.number w.slots).meta.udid want ≡ adopts d)
      × (d.udid ≡ udid)
      × (d.name ≡ want)
      × (mismatched s.resolve s.strict d ≡ false))
    ⊎ ((runtime device_type : Text) × (s.resolve ≡ some (runtime, device_type))
        × ((v : World) × CreatesIn s q w v
            × ((s.create want device_type runtime v.machine.os).0 ≡ some udid)))

abbrev pub Replaces : Supply → Request → World → Act → Type 0
Replaces s q w (shut_down u) = Replaceable s q w u ⊎ Own s q w u
Replaces s q w (deleted u) = Replaceable s q w u
Replaces s q w (booted u) = Own s q w u
Replaces s q w _ = ⊥

-- What other processes do while a call waits for the boot gate is not among its acts.
abbrev pub GateApart : Supply → Type 0
GateApart s = (w : World) → (s.gate w).1.machine.acts ≡ w.machine.acts

module _ (s : Supply) (q : Request) (w₀ : World) where
  abbrev P : Act → Type 0
  P = Replaces s q w₀
