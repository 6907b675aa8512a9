-- ===== src/Examples/Provisioning.antt =====
-- EnsureProvisioned on slot 0 of Scene, and the boot gate.
use simpool.Common.{
  ℕ, zero, suc, ◌+◌, ◌≡◌, refl, true, false, [], ◌∷◌, some, arith, if◌then◌else◌, ◌==◌,
}
use simpool.Text.{codes}
use simpool.Poison.Recovery.{booted, deleted, shut_down}
use simpool.Availability.{unlocked, locked}
use simpool.Group.{World, slot_at}
use simpool.Drivers.{current_lease_driver}
use simpool.Provision.{
  Supply, Request, provisioned, ambiguous_name, adopt, substance_ok, replace_device, stamp,
  finish_provisioning, boot_gated, make_ready, create_device, after_adoption, ensure_provisioned,
  Provisioned,
}
use simpool.Provision.Recorded.{Leaves, ensure_provisioned-Leaves}
use simpool.BootGate.{
  Gate, gate_taken, take_gate, scan_from, poll_gate, acquire_boot_gate, GateResult,
}
use simpool.BootGate.Opening.{Ended, slept, Waits, acquire_boot_gate-Ended, acquire_boot_gate_opens}
use simpool.Examples.Runs.{run_lease}
use simpool.Examples.Scene.{quiet, device_0, slot_0, world, context, machine_of}

abbrev supply : Supply
supply = record {
  context = context;
  resolve = some (codes "R", codes "T");
  create = λ name device_type runtime os. (some (codes "N"), os);
  slim = λ udid categories os. (false, os);
  boot_retries = λ udid os. false;
  restore = λ udid os. os;
  gate = λ w. (true, w);
  boot_timeout = 180_000_000_000;
  slim_on = true;
  restore_on = true;
  strict = true;
  requested = [];
}

-- The runtime that is asked for is not that of the simulator.
abbrev newer : Supply
newer = record supply { resolve = some (codes "R2", codes "T") }

abbrev request : Request
request = record {
  number = 0;
  device = codes "iPhone";
  os_version = codes "18";
  renewed = false;
  owner_cmd = codes "with";
  mode = codes "with";
  lease_key = [];
  pid = 12;
  parent = 1;
}

unfoldable run_provision : Supply → World → Provisioned × World
unfolding run_lease current_lease_driver adopt substance_ok replace_device stamp finish_provisioning
    boot_gated make_ready create_device after_adoption ensure_provisioned
run_provision s w = ensure_provisioned s request w

-- The simulator is adopted and booted.
adopts_own : (run_provision supply world).0 ≡ provisioned (codes "U")
unfolding run_provision
adopts_own = refl

boots_own :
    (run_provision supply world).1.machine.acts ≡ booted (codes "U") ∷ booted (codes "U") ∷ []
unfolding run_provision
boots_own = refl

-- One of another runtime is deleted, and a new one created and booted.
replaces_other :
    (run_provision newer world).1.machine.acts
    ≡ booted (codes "N") ∷ booted (codes "N") ∷ deleted (codes "U") ∷ shut_down (codes "U") ∷ []
unfolding run_provision
replaces_other = refl

-- Two simulators of one name, and a meta.json that names neither.
abbrev twins : World
twins = record {
  slots = (0, record slot_0 { meta = record slot_0.meta { udid = [] } }) ∷ [];
  machine =
      machine_of
        (record quiet { devices = some (device_0 ∷ record device_0 { udid = codes "V" } ∷ []) });
}

refuses_twins : (run_provision supply twins).0 ≡ ambiguous_name
unfolding run_provision
refuses_twins = refl

ensure_provisioned-Leaves_example :
    Leaves request (slot_at 0 world.slots) (ensure_provisioned supply request world)
ensure_provisioned-Leaves_example = ensure_provisioned-Leaves supply request world (λ w. refl)

-- Two lock files; the second is given back within a second.
abbrev gate : Gate
gate = record { lock_of = λ n. locked; now = 5 }

abbrev a_second : Gate → Gate
a_second g = record {
  lock_of = λ n. if n == 1 then unlocked else locked;
  now = g.now + 1_000_000_000;
}

unfoldable run_gate : ℕ → GateResult × Gate
unfolding scan_from poll_gate acquire_boot_gate slept
run_gate timeout = acquire_boot_gate a_second 2 timeout gate

second_opens : (run_gate 2_000_000_000).0 ≡ gate_taken 1
unfolding run_gate
second_opens = refl

acquire_boot_gate-Ended_example :
    Ended a_second 2 (5 + 2_000_000_000) gate (acquire_boot_gate a_second 2 2_000_000_000 gate)
acquire_boot_gate-Ended_example =
    acquire_boot_gate-Ended a_second 2 2_000_000_000 gate (λ g. omega arith)

busy_at_first : Waits a_second 2 (5 + 2_000_000_000) 1 gate
unfolding run_gate
busy_at_first zero lt = (refl, omega arith)
busy_at_first (suc j) lt = absurd (omega arith)

acquire_boot_gate_opens_example :
    acquire_boot_gate a_second 2 2_000_000_000 gate ≡ (gate_taken 1, take_gate 1 (a_second gate))
unfolding run_gate
acquire_boot_gate_opens_example =
    acquire_boot_gate_opens a_second 2 2_000_000_000 gate 1 1 (λ g. omega arith) busy_at_first refl
