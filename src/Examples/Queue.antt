-- ===== src/Examples/Queue.antt =====
-- The polling loop, the names and the lease drivers, on the group of Scene.
use simpool.Common.{some, if◌then◌else◌, ◌==◌, ℕ, ◌+◌, ◌≡◌, refl, true, [], ◌∷◌, none, arith}
use simpool.Text.{codes}
use simpool.Poison.Recovery.{Kernel}
use simpool.Group.{World}
use simpool.Claims.{Context}
use simpool.Names.Groups.{allowed, replace_runs, trim_left, trim_right, sanitize, group_name}
use simpool.Names.Unique.{device_name_for_group_injective}
use simpool.Queueing.{acquire_slots, poll, QueueResult, tried}
use simpool.Queueing.Ending.{Final, acquire_slots-Final}
use simpool.Acquire.{acquired}
use simpool.Procs.{Os, delivered, no_process}
use simpool.Examples.Runs.{run_acquire}
use simpool.Examples.Scene.{quiet, world, context, noon}

-- Signals are sent, and nothing else changes.
abbrev deaf : Kernel
deaf = record {
  kill_group = λ p os. (true, os);
  kill = λ p os. os;
  wait = λ os. os;
  shutdown = λ u os. (true, os);
  delete = λ u os. (true, os);
  boot = λ u os. (true, os);
  scrub = λ u os. os;
}

abbrev two_seconds : World → World
two_seconds w = record w {
  machine = record w.machine {
    os = record w.machine.os { now = w.machine.os.now + 2_000_000_000 };
  };
}

abbrev waiting : Context
waiting = record context { kernel = deaf; sleep = two_seconds }

-- Three slots are asked for where two are free and the group may have no more.
unfoldable run_queue : ℕ → QueueResult × World
unfolding run_acquire acquire_slots poll
run_queue count = acquire_slots waiting 35 count 4 (λ w. none) 5_000_000_000 world

two_at_once : (run_queue 2).0 ≡ tried (acquired (5 ∷ 0 ∷ []))
unfolding run_queue
two_at_once = refl

gives_up_after_6_seconds : (run_queue 3).1.machine.os.now ≡ noon + 6_000_000_000
unfolding run_queue
gives_up_after_6_seconds = refl

acquire_slots-Final_example :
    Final waiting 35 3 4
      (λ w. none)
      5_000_000_000
      (noon + 5_000_000_000)
      world
      (acquire_slots waiting 35 3 4 (λ w. none) 5_000_000_000 world)
acquire_slots-Final_example =
    acquire_slots-Final waiting 35 3 4 (λ w. none) 5_000_000_000 world
      (λ p os. omega arith, λ p os. omega arith, λ os. omega arith, λ u os. omega arith)
      (λ w. omega arith) (λ e. absurd (omega arith)) (omega arith)

sanitized : group_name (codes " iPhone 17 (Pro)") (codes "26.3") ≡ codes "iPhone-17-Pro@26.3"
unfolding run_queue group_name sanitize replace_runs trim_left trim_right allowed
sanitized = refl

device_name_for_group_injective_example :
    (codes "ab" ≡ codes "ab") × (codes "G" ≡ codes "G") × (noon ≡ noon)
device_name_for_group_injective_example =
    device_name_for_group_injective (codes "ab") (codes "ab") (codes "G") (codes "G") noon noon refl
      refl

-- Process 31 drives a lease.
abbrev driven : Os
driven = record quiet {
  signal_pid = λ p. if p == 31 then delivered else no_process;
  start_time = λ p. if p == 31 then some (codes "Tue") else none;
}

abbrev driver : ℕ
driver = 31

abbrev other : ℕ
other = 32
