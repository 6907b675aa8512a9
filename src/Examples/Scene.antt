-- ===== src/Examples/Scene.antt =====
-- One group with four slots, on a machine where an idb_companion outlived its session.
use simpool.Common.{ℕ, ◌+◌, ◌-◌, true, [], ◌∷◌, none, some, if◌then◌else◌, ◌==◌}
use simpool.Text.{Text, codes, text_eq}
use simpool.Meta.{Meta, Lease, absent, present, no_meta}
use simpool.Procs.{Os, Device, delivered, no_process}
use simpool.Poison.Recovery.{Kernel, Machine}
use simpool.Availability.{SlotDir, unlocked, locked}
use simpool.Group.{Slots, World}
use simpool.Claims.{Context}

abbrev pub minute : ℕ
minute = 60_000_000_000

-- Ten hours in.
abbrev pub noon : ℕ
noon = 36_000_000_000_000

abbrev pub device_0 : Device
device_0 = record {
  name = codes "SIMPOOL_ab_G_slot-0";
  udid = codes "U";
  state = codes "Shutdown";
  is_available = true;
  runtime_id = codes "R";
  device_type_id = codes "T";
}

-- Nothing runs.
abbrev pub quiet : Os
quiet = record {
  now = noon;
  signal_pid = λ p. no_process;
  signal_group = λ p. no_process;
  start_time = λ p. none;
  parent_of = λ p. none;
  command_line = λ p. [];
  pgrep = λ needle. some [];
  snapshot = some [];
  devices = some (device_0 ∷ []);
}

-- Process 7 is a companion of device U, which is shut down.
abbrev pub haunted : Os
haunted = record quiet {
  signal_pid = λ p. if p == 7 then delivered else no_process;
  command_line = λ p. if p == 7 then codes "/opt/idb_companion --udid U" else [];
  pgrep = λ needle. if text_eq needle (codes "U") then some (7 ∷ []) else some [];
}

-- Process group 9 is the consumer that meta_0 records.
abbrev pub inhabited : Os
inhabited = record quiet {
  signal_group = λ p. if p == 9 then delivered else no_process;
  start_time = λ p. if p == 9 then some (codes "Mon") else none;
}

-- Signals and shutdowns leave a quiet machine.
abbrev pub kernel : Kernel
kernel = record {
  kill_group = λ p os. (true, quiet);
  kill = λ p os. quiet;
  wait = λ os. os;
  shutdown = λ u os. (true, os);
  delete = λ u os. (true, os);
  boot = λ u os. (true, os);
  scrub = λ u os. os;
}

abbrev pub key_1 : Text
key_1 = codes "job-1"

abbrev pub key_2 : Text
key_2 = codes "job-2"

-- A slot that job-1 leased last.
abbrev pub meta_0 : Meta
meta_0 = record no_meta {
  udid = codes "U";
  mode = codes "lease";
  lease_key = key_1;
  last_used = noon - minute;
  capabilities = codes "search" ∷ [];
}

-- A slot whose last consumer was a `with`.
abbrev pub meta_with : Meta
meta_with = record no_meta {
  udid = codes "U";
  mode = codes "with";
  consumer_pgid = 9;
  consumer_started_at = codes "Mon";
}

abbrev pub slot_0 : SlotDir
slot_0 = record { lock = unlocked; lease_file = absent; meta = meta_0; marker = none }

abbrev pub lease_1 : Lease
lease_1 = record { key = key_1; expires_at = noon + minute }

abbrev pub lease_2 : Lease
lease_2 = record { key = key_2; expires_at = noon - minute }

-- Slot 0 is free, 1 is held, 3 has job-1's live lease, and 5 an expired one of job-2.
abbrev pub slots : Slots
slots =
    (0, slot_0)
    ∷ (1, record { lock = locked; lease_file = absent; meta = no_meta; marker = none })
    ∷ (3, record { lock = unlocked; lease_file = present lease_1; meta = no_meta; marker = none })
    ∷ (5, record { lock = unlocked; lease_file = present lease_2; meta = no_meta; marker = none })
    ∷ []

abbrev pub machine_of : Os → Machine
machine_of os = record { os = os; acts = [] }

abbrev pub world : World
world = record { slots = slots; machine = machine_of quiet }

-- The same group, with the companion alive.
abbrev pub haunted_world : World
haunted_world = record { slots = slots; machine = machine_of haunted }

-- While a call sleeps, nothing happens.
abbrev pub context : Context
context = record {
  kernel = kernel;
  sleep = λ w. w;
  root_tag = codes "ab";
  group = codes "G";
  want = [];
}
