-- ===== src/BootGate.antt =====
-- internal/pool/bootgate.go: how many simulators may boot at once, over all groups and processes of
-- a pool root. The gate is a row of lock files; `sleep` is what other processes and the clock do
-- between two scans.
pub mod Opening
use simpool.Common.{
  ℕ, zero, suc, ◌+◌, ◌/◌, Bool, true, false, not, Option, none, some, ltb, ◌==◌, if◌then◌else◌,
}
use simpool.Availability.{LockState, unlocked, locked, unopenable}

-- The state of each lock file, and the clock.
pub record Gate : Type 0 where
  pub lock_of : ℕ → LockState
  pub now : ℕ

-- DefaultBootConcurrency, by the number in SIMPOOL_BOOT_CONCURRENCY, if it is one, and the number of
-- CPUs.
unfoldable pub default_boot_concurrency : Option ℕ → ℕ → ℕ
default_boot_concurrency (some (suc n)) cpus = suc n
default_boot_concurrency _ cpus = if cpus / 2 == 0 then 1 else cpus / 2

-- What one scan of the lock files finds.
pub data Scan : Type 0 where
  free_at : ℕ → Scan
  all_busy : Scan
  scan_failed : Scan

-- The scan of `size` lock files from number `n`.
unfoldable pub scan_from : ℕ → ℕ → Gate → Scan
scan_from zero n g = all_busy
scan_from (suc size) n g =
    let rest = scan_from size (n + 1) g in
    elim (g.lock_of n) [ unlocked ↦ free_at n | locked ↦ rest | unopenable ↦ scan_failed ]

pub data GateResult : Type 0 where
  gate_taken : ℕ → GateResult
  gate_timed_out : GateResult
  gate_failed : GateResult
  gate_pending : GateResult  -- out of fuel

abbrev pub take_gate : ℕ → Gate → Gate
take_gate n g = record g { lock_of = λ m. if m == n then locked else g.lock_of m }

-- 200 milliseconds
abbrev pub boot_gate_poll_interval : ℕ
boot_gate_poll_interval = 200_000_000

module _ (sleep : Gate → Gate) (size deadline : ℕ) where
  abbrev pub after_scan : Scan → Gate → GateResult × Gate → GateResult × Gate
  after_scan (free_at n) g later = (gate_taken n, take_gate n g)
  after_scan scan_failed g later = (gate_failed, g)
  after_scan all_busy g later = if ltb deadline g.now then (gate_timed_out, g) else later

  -- The loop of AcquireBootGate; each scan takes one unit of fuel.
  unfoldable pub poll_gate : ℕ → Gate → GateResult × Gate
  poll_gate zero g = (gate_pending, g)
  poll_gate (suc fuel) g = after_scan (scan_from size 0 g) g (poll_gate fuel (sleep g))

-- AcquireBootGate, with a scan for each interval of the timeout and two more.
unfoldable pub acquire_boot_gate : (Gate → Gate) → ℕ → ℕ → Gate → GateResult × Gate
acquire_boot_gate sleep size timeout g =
    poll_gate sleep size (g.now + timeout) (timeout / boot_gate_poll_interval + 2) g
