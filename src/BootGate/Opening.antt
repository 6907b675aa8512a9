-- ===== src/BootGate/Opening.antt =====
-- The boot gate opens, or its wait ends.
use simpool.Common.{
  ℕ, zero, suc, ◌+◌, ◌*◌, ◌/◌, ◌≤◌, ◌<◌, ◌≡◌, refl, inl, inr, false, arith, ltb, ◌==◌, Bool-cases,
}
use simpool.Availability.{LockState, unlocked, locked, unopenable}
use simpool.BootGate.{
  Gate, Scan, free_at, all_busy, scan_failed, scan_from, GateResult, gate_taken, gate_timed_out,
  gate_failed, gate_pending, take_gate, boot_gate_poll_interval, after_scan, poll_gate,
  acquire_boot_gate,
}

-- What a scan says of the lock files from `n` on.
abbrev pub ScanMeans : ℕ → ℕ → Gate → Scan → Type 0
ScanMeans size n g (free_at m) =
    (n ≤ m)
    × (m < n + size)
    × (g.lock_of m ≡ unlocked)
    × ((k : ℕ) → n ≤ k → k < m → g.lock_of k ≡ locked)
ScanMeans size n g all_busy = (k : ℕ) → n ≤ k → k < n + size → g.lock_of k ≡ locked
ScanMeans size n g scan_failed = (m : ℕ) × (m < n + size) × (g.lock_of m ≡ unopenable)

-- From `n` on, if it is so at `n` and from the number after it on.
locked_from :
    (g : Gate) (n k : ℕ)
    → g.lock_of n ≡ locked
    → n ≤ k
    → (n + 1 ≤ k → g.lock_of k ≡ locked)
    → g.lock_of k ≡ locked
locked_from g n k e le f = elim (Bool-cases (n == k)) [
  | inl q ↦ let same : k ≡ n = ground arith in rw same e
  | inr q ↦ f (ground arith)
]

scan_from-Means : (size n : ℕ) (g : Gate) → ScanMeans size n g (scan_from size n g)
unfolding scan_from
scan_from-Means zero n g = λ k le lt. absurd (omega arith)
scan_from-Means (suc size) n g =
    by (g.lock_of n) refl (scan_from size (n + 1) g) (scan_from-Means size (n + 1) g)
  where
    by :
        (lock : LockState)
        → g.lock_of n ≡ lock
        → (rest : Scan) → ScanMeans size (n + 1) g rest
        → ScanMeans
            (suc size)
            n
            g
            (elim lock [ unlocked ↦ free_at n | locked ↦ rest | unopenable ↦ scan_failed ])
    by unlocked e rest h = (omega arith, omega arith, e, λ k le lt. absurd (omega arith))
    by unopenable e rest h = (n, omega arith, e)
    by locked e (free_at m) h = (
      omega (arith, h.0),
      omega (arith, h.1),
      h.2,
      λ k le lt. locked_from g n k e le (λ l. h.3 k l lt),
    )
    by locked e all_busy h = λ k le lt. locked_from g n k e le (λ l. h k l (omega arith))
    by locked e scan_failed h = (h.0, omega (arith, h.1), h.2)

-- The gate after `k` sleeps.
unfoldable pub slept : (Gate → Gate) → ℕ → Gate → Gate
slept sleep zero g = g
slept sleep (suc k) g = slept sleep k (sleep g)

module _ (sleep : Gate → Gate) (size deadline : ℕ) where
  -- What a wait that began at `g` ends with.
  abbrev pub Ended : Gate → GateResult × Gate → Type 0
  Ended g (gate_taken n, h) =
      (k : ℕ) × (h ≡ take_gate n (slept sleep k g))
      × (n < size)
      × ((slept sleep k g).lock_of n ≡ unlocked)
  Ended g (gate_timed_out, h) =
      (k : ℕ) × (h ≡ slept sleep k g)
      × (deadline < h.now)
      × ((n : ℕ) → n < size → h.lock_of n ≡ locked)
  Ended g (gate_failed, h) = (n : ℕ) × (n < size) × (h.lock_of n ≡ unopenable)
  Ended g (gate_pending, h) = ⊥

  -- A sleep takes the poll interval or longer.
  abbrev pub GateSleeps : Type 0
  GateSleeps = (g : Gate) → g.now + boot_gate_poll_interval ≤ (sleep g).now

  -- A wait that ends after one more sleep ends.
  later-Ended : (g : Gate) (r : GateResult × Gate) → Ended (sleep g) r → Ended g r
  unfolding slept
  later-Ended g (gate_taken n, h) (k, e, l, f) = (suc k, e, l, f)
  later-Ended g (gate_timed_out, h) (k, e, l, f) = (suc k, e, l, f)
  later-Ended g (gate_failed, h) e = e
  later-Ended g (gate_pending, h) e = e

  after_scan-Ended :
      (g : Gate) (s : Scan) (r : GateResult × Gate)
      → ScanMeans size 0 g s
      → (ltb deadline g.now ≡ false → Ended (sleep g) r)
      → Ended g (after_scan sleep size deadline s g r)
  unfolding slept
  after_scan-Ended g (free_at n) r m f = (0, refl, omega (arith, m.1), m.2)
  after_scan-Ended g scan_failed r (n, l, e) f = (n, omega (arith, l), e)
  after_scan-Ended g all_busy r m f = elim (Bool-cases (ltb deadline g.now)) [
    | inl e ↦ rw e (0, refl, ground arith, λ n l. m n (omega arith) (omega arith))
    | inr e ↦ rw e (later-Ended g r (f e))
  ]

  poll_gate-Ended :
      (fuel : ℕ) (g : Gate)
      → GateSleeps
      → deadline < g.now + fuel * boot_gate_poll_interval
      → Ended g (poll_gate sleep size deadline (suc fuel) g)
  unfolding poll_gate
  poll_gate-Ended zero g sleeps h =
      after_scan-Ended g (scan_from size 0 g) _ (scan_from-Means size 0 g)
        (λ e. absurd (ground arith))
  poll_gate-Ended (suc fuel) g sleeps h =
      after_scan-Ended g (scan_from size 0 g) _ (scan_from-Means size 0 g)
        (λ e. poll_gate-Ended fuel (sleep g) sleeps (omega (arith, sleeps g)))

  -- `k` scans in a row find the gate busy and the wait not over.
  abbrev pub Waits : ℕ → Gate → Type 0
  Waits k g =
      (j : ℕ)
      → j < k
      → (scan_from size 0 (slept sleep j g) ≡ all_busy) × ((slept sleep j g).now ≤ deadline)

  -- If the gate is busy for `k` scans, within the wait, and free at the one after them, the wait
  -- ends with it.
  poll_gate_opens :
      (k fuel : ℕ) (g : Gate) (n : ℕ)
      → k < fuel
      → Waits k g
      → scan_from size 0 (slept sleep k g) ≡ free_at n
      → poll_gate sleep size deadline fuel g ≡ (gate_taken n, take_gate n (slept sleep k g))
  unfolding poll_gate slept
  poll_gate_opens k zero g n l w e = absurd (omega arith)
  poll_gate_opens zero (suc fuel) g n l w e = rw e refl
  poll_gate_opens (suc k) (suc fuel) g n l w e =
      let (busy, early) = w 0 (omega arith) in
      let going : ltb deadline g.now ≡ false = ground arith in
      rw (busy, going)
        (poll_gate_opens k fuel (sleep g) n (omega arith) (λ j lt. w (suc j) (omega arith)) e)

  slept-now :
      (k : ℕ) (g : Gate) → GateSleeps → g.now + k * boot_gate_poll_interval ≤ (slept sleep k g).now
  unfolding slept
  slept-now zero g s = omega arith
  slept-now (suc k) g s = omega (arith, slept-now k (sleep g) s, s g)

module _ (sleep : Gate → Gate) (size timeout : ℕ) (g : Gate) where
  abbrev limit : ℕ
  limit = g.now + timeout

  -- If each sleep takes 200 milliseconds or longer, AcquireBootGate ends, for every timeout: with
  -- one of the `size` lock files, which its last scan found free; or with all of them busy and the
  -- timeout over; or with one that cannot be opened.
  pub acquire_boot_gate-Ended :
      GateSleeps sleep size limit
      → Ended sleep size limit g (acquire_boot_gate sleep size timeout g)
  unfolding acquire_boot_gate
  acquire_boot_gate-Ended sleeps =
      let f = timeout / boot_gate_poll_interval + 1 in
      let fuel : timeout / boot_gate_poll_interval + 2 ≡ suc f = omega arith in
      rw fuel (poll_gate-Ended sleep size limit f g sleeps (omega arith))

  -- If each sleep takes 200 milliseconds or longer, and the gate is busy for any number of scans
  -- within the timeout and has a free lock file at the scan after them, AcquireBootGate takes it.
  pub acquire_boot_gate_opens :
      (k n : ℕ)
      → GateSleeps sleep size limit
      → Waits sleep size limit k g
      → scan_from size 0 (slept sleep k g) ≡ free_at n
      → acquire_boot_gate sleep size timeout g ≡ (gate_taken n, take_gate n (slept sleep k g))
  unfolding acquire_boot_gate
  acquire_boot_gate_opens k n sleeps waits free =
      poll_gate_opens sleep size limit k (timeout / boot_gate_poll_interval + 2) g n (few k waits)
        waits free
    where
      few : (k : ℕ) → Waits sleep size limit k g → k < timeout / boot_gate_poll_interval + 2
      few zero w = omega arith
      few (suc k) w = omega (arith, (w k (omega arith)).1, slept-now sleep size limit k g sleeps)
