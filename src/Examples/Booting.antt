-- ===== src/Examples/Booting.antt =====
-- Waits for a simulator whose SpringBoard runs from some time on; the state is the time.
use simpool.Common.{ℕ, ◌+◌, ◌*◌, ◌≤◌, ◌<◌, ◌≡◌, refl, arith, Bool, true, false, some, ltb, leb}
use simpool.Text.{codes, text_eq, fields, fields_from, is_space}
use simpool.SimRuntime.{lines_from}
use simpool.Simctl.{spring_board_line, spring_board_in, parse_spring_board_ready}
use simpool.BootWait.{
  BootWaitDeps, boot_ready, boot_wedged, probe_each, wait_for_ready_once, boot_and_wait,
  spring_board_poll_interval,
}
use simpool.BootWait.Ending.{Ticks}
use simpool.BootWait.Verdict.{ResultMeans, boot_and_wait-Means}

-- bootstatus fails where not `ok`, and SpringBoard runs from `up` on.
abbrev paused : Bool → ℕ → Bool × ℕ
paused true t = (false, t + spring_board_poll_interval)
paused false t = (true, t)

abbrev booting : ℕ → Bool → BootWaitDeps ℕ
booting up ok = record {
  now = λ t. t;
  bootstatus = λ d t. (ok, t);
  find = λ t. (some (some (codes "Booted")), t);
  spring_board_ready = λ d t. (leb up t, t);
  shutdown = λ t. (true, t);
  pause = λ d t. paused (ltb t d) t;
  settle = λ t. t + 2 * spring_board_poll_interval;
}

abbrev seconds : ℕ → ℕ
seconds n = n * 1_000_000_000

booting-Ticks : (up : ℕ) (ok : Bool) → Ticks (booting up ok)
booting-Ticks up ok = ((λ d s. omega arith), λ d s. by d s (ltb s d) refl)
  where
    by :
        (d s : ℕ) (b : Bool)
        → ltb s d ≡ b
        → (paused b s).0 ≡ false
        → (s < d) × (s + spring_board_poll_interval ≤ (paused b s).1)
    by d s true e h = (ground arith, omega arith)
    by d s false e h = cc

-- A device that is Booted is waited for whatever bootstatus said.
boots_slowly : boot_and_wait (booting (seconds 2) false) (seconds 6) 0 ≡ (boot_ready, seconds 3)
unfolding text_eq probe_each wait_for_ready_once boot_and_wait
boots_slowly = refl

-- The second attempt has what the first has left.
boots_late : boot_and_wait (booting (seconds 5) true) (seconds 6) 0 ≡ (boot_ready, seconds 6)
unfolding probe_each wait_for_ready_once boot_and_wait
boots_late = refl

boots_never : (boot_and_wait (booting (seconds 90) true) (seconds 6) 0).0 ≡ boot_wedged
unfolding probe_each wait_for_ready_once boot_and_wait
boots_never = refl

-- SpringBoard is known, and does not run.
probe_waits :
    parse_spring_board_ready (codes "PID Status Label\n-\t0\tcom.apple.SpringBoard") ≡ false
unfolding lines_from spring_board_line spring_board_in fields fields_from is_space text_eq
probe_waits = refl

probe_answers : parse_spring_board_ready (codes "77 0 com.apple.SpringBoard\n") ≡ true
unfolding lines_from spring_board_line spring_board_in fields fields_from is_space text_eq
probe_answers = refl

boot_and_wait-Means_example :
    ResultMeans
      (booting (seconds 2) true)
      (seconds 6)
      0
      (boot_and_wait (booting (seconds 2) true) (seconds 6) 0)
boot_and_wait-Means_example =
    boot_and_wait-Means (booting (seconds 2) true) (booting-Ticks (seconds 2) true) (seconds 6) 0
