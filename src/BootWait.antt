-- ===== src/BootWait.antt =====
-- internal/simctl/simctl.go: the wait until a simulator is ready (BootAndWaitWithDeps,
-- waitForReadyOnce). What the four primitives of BootWaitDeps and a wait do to the machine and the
-- clock is a parameter.
pub mod Ending
pub mod Verdict
use simpool.Common.{
  ℕ, zero, suc, ◌+◌, ◌-◌, ◌*◌, ◌/◌, Bool, true, false, Option, none, some, ltb, if◌then◌else◌,
}
use simpool.Text.{Text, codes, text_eq}

-- A context is its deadline. The Booleans are false where a primitive returns an error, and for the
-- probe also where SpringBoard does not run.
pub record BootWaitDeps (S : Type 0) : Type 0 where
  pub now : S → ℕ
  pub bootstatus : ℕ → S → Bool × S
  pub find : S → Option (Option Text) × S  -- The state of the device, if it is found.
  pub spring_board_ready : ℕ → S → Bool × S
  pub shutdown : S → Bool × S
  pub pause : ℕ → S → Bool × S  -- The select between ctx.Done, true, and time.After.
  pub settle : S → S

-- 500 milliseconds
abbrev pub spring_board_poll_interval : ℕ
spring_board_poll_interval = 500_000_000

abbrev pub first_attempt_share : ℕ
first_attempt_share = 2

abbrev pub min_retry_budget : ℕ
min_retry_budget = 2 * spring_board_poll_interval

pub data Readiness : Type 0 where
  is_ready : Readiness
  never_booted : Readiness
  readiness_timed_out : Readiness
  readiness_pending : Readiness  -- out of fuel

pub data BootResult : Type 0 where
  boot_ready : BootResult
  boot_failed : BootResult  -- bootstatus failed and the device is not Booted
  no_time_left : BootResult
  retry_not_shut : BootResult
  boot_wedged : BootResult
  boot_pending : BootResult  -- out of fuel

-- Is the device Booted after all?
abbrev pub booted_anyway : Option (Option Text) → Bool
booted_anyway none = false
booted_anyway (some none) = false
booted_anyway (some (some state)) = text_eq state (codes "Booted")

module _ {S : Type 0} (deps : BootWaitDeps S) where
  abbrev pub after_pause : Bool × S → Readiness × S → Readiness × S
  after_pause (true, s) later = (readiness_timed_out, s)
  after_pause (false, s) later = later

  abbrev pub after_probe : ℕ → Bool × S → (S → Readiness × S) → Readiness × S
  after_probe deadline (true, s) later = (is_ready, s)
  after_probe deadline (false, s) later = let p = deps.pause deadline s in after_pause p (later p.1)

  -- The loop of waitForReadyOnce; each probe takes one unit of fuel.
  unfoldable pub probe_each : ℕ → ℕ → S → Readiness × S
  probe_each zero deadline s = (readiness_pending, s)
  probe_each (suc fuel) deadline s =
      after_probe deadline (deps.spring_board_ready deadline s) (λ t. probe_each fuel deadline t)

  -- A probe for each interval until the deadline and two more.
  abbrev pub probes : ℕ → S → ℕ
  probes deadline s = suc ((deadline - deps.now s) / spring_board_poll_interval + 1)

  abbrev pub after_find : ℕ → Option (Option Text) × S → Readiness × S
  after_find deadline (o, s) =
      if booted_anyway o then probe_each (probes deadline s) deadline s else (never_booted, s)

  abbrev pub after_bootstatus : ℕ → Bool × S → Readiness × S
  after_bootstatus deadline (true, s) = probe_each (probes deadline s) deadline s
  after_bootstatus deadline (false, s) = after_find deadline (deps.find s)

  -- waitForReadyOnce
  unfoldable pub wait_for_ready_once : ℕ → S → Readiness × S
  wait_for_ready_once deadline s = after_bootstatus deadline (deps.bootstatus deadline s)

  abbrev pub after_retry : Readiness × S → BootResult × S
  after_retry (is_ready, s) = (boot_ready, deps.settle s)
  after_retry (never_booted, s) = (boot_failed, s)
  after_retry (readiness_timed_out, s) = (boot_wedged, s)
  after_retry (readiness_pending, s) = (boot_pending, s)

  -- The one retry, on what is left of the time before the shutdown.
  abbrev pub retry : ℕ → Bool × S → BootResult × S
  retry remaining (false, s) = (retry_not_shut, s)
  retry remaining (true, s) = after_retry (wait_for_ready_once (deps.now s + remaining) s)

  abbrev pub after_first_wait : ℕ → Readiness × S → BootResult × S
  after_first_wait deadline (is_ready, s) = (boot_ready, deps.settle s)
  after_first_wait deadline (never_booted, s) = (boot_failed, s)
  after_first_wait deadline (readiness_timed_out, s) =
      let remaining = deadline - deps.now s in
      if ltb remaining min_retry_budget
      then (no_time_left, s)
      else retry remaining (deps.shutdown s)
  after_first_wait deadline (readiness_pending, s) = (boot_pending, s)

  -- BootAndWaitWithDeps
  unfoldable pub boot_and_wait : ℕ → S → BootResult × S
  boot_and_wait timeout s =
      let first = timeout * first_attempt_share / (first_attempt_share + 1) in
      after_first_wait (deps.now s + timeout) (wait_for_ready_once (deps.now s + first) s)
