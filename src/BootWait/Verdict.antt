-- ===== src/BootWait/Verdict.antt =====
-- What the wait for a simulator answers, and that it ends.
use simpool.Common.{
  ℕ, zero, suc, ◌+◌, ◌-◌, ◌*◌, ◌/◌, ◌≤◌, ◌<◌, ◌≡◌, refl, ◌⊎◌, inl, inr, Bool, true, false, Option,
  arith, ltb, Bool-cases,
}
use simpool.Text.{Text}
use simpool.BootWait.{
  BootWaitDeps, Readiness, is_ready, never_booted, readiness_timed_out, readiness_pending,
  BootResult, boot_ready, boot_failed, no_time_left, retry_not_shut, boot_wedged, boot_pending,
  booted_anyway, after_pause, after_probe, probe_each, probes, after_find, after_bootstatus,
  wait_for_ready_once, after_retry, retry, after_first_wait, boot_and_wait, min_retry_budget,
}
use simpool.BootWait.Ending.{Ticks, Ended, wait_for_ready_once-Ended}

module _ {S : Type 0} (deps : BootWaitDeps S) where
  -- In `k` rounds an attempt goes from `s` to `t`: each time the probe does not find SpringBoard
  -- running, and the pause after it ends before the deadline.
  abbrev pub Rounds : ℕ → ℕ → S → S → Type 0
  Rounds deadline zero s t = t ≡ s
  Rounds deadline (suc k) s t =
      (u v : S) × (deps.spring_board_ready deadline s ≡ (false, u))
      × (deps.pause deadline u ≡ (false, v))
      × Rounds deadline k v t

  -- What stands behind the answer of the probes that start at `s`.
  abbrev pub ProbesMean : ℕ → S → Readiness × S → Type 0
  ProbesMean deadline s (is_ready, t) =
      (k : ℕ) × ((u : S) × Rounds deadline k s u × (deps.spring_board_ready deadline u ≡ (true, t)))
  ProbesMean deadline s (readiness_timed_out, t) =
      (k : ℕ) × ((u v : S) × Rounds deadline k s u
        × (deps.spring_board_ready deadline u ≡ (false, v))
        × (deps.pause deadline v ≡ (true, t)))
  ProbesMean deadline s (readiness_pending, t) = Unit {0}
  ProbesMean deadline s (never_booted, t) = ⊥

  -- The probes of the attempt that starts at `s` start at `t`: bootstatus succeeded, or it failed on
  -- a device that is Booted after all.
  abbrev pub Probing : ℕ → S → S → Type 0
  Probing deadline s t =
      (deps.bootstatus deadline s ≡ (true, t))
      ⊎ ((u : S) × (deps.bootstatus deadline s ≡ (false, u))
          × ((o : Option (Option Text)) × (deps.find u ≡ (o, t)) × (booted_anyway o ≡ true)))

  -- What stands behind the answer of the attempt that starts at `s`.
  abbrev pub AttemptMeans : ℕ → S → Readiness × S → Type 0
  AttemptMeans deadline s (never_booted, t) =
      (u : S) × (deps.bootstatus deadline s ≡ (false, u))
      × ((o : Option (Option Text)) × (deps.find u ≡ (o, t)) × (booted_anyway o ≡ false))
  AttemptMeans deadline s r = (t : S) × Probing deadline s t × ProbesMean deadline t r

  one_more :
      (deadline : ℕ) (s u v : S) (r : Readiness × S)
      → deps.spring_board_ready deadline s ≡ (false, u)
      → deps.pause deadline u ≡ (false, v)
      → ProbesMean deadline v r
      → ProbesMean deadline s r
  one_more deadline s u v (is_ready, t) e f (k, (x, rounds, g)) =
      (suc k, (x, (u, v, e, f, rounds), g))
  one_more deadline s u v (readiness_timed_out, t) e f (k, (x, y, rounds, g, h)) =
      (suc k, (x, y, (u, v, e, f, rounds), g, h))
  one_more deadline s u v (readiness_pending, t) e f m = tt
  one_more deadline s u v (never_booted, t) e f m = m

  after_probe-Mean :
      (deadline : ℕ) (s : S) (p : Bool × S) (later : S → Readiness × S)
      → deps.spring_board_ready deadline s ≡ p
      → ((v : S) → ProbesMean deadline v (later v))
      → ProbesMean deadline s (after_probe deps deadline p later)
  after_probe-Mean deadline s (true, u) later e f = (0, (s, refl, e))
  after_probe-Mean deadline s (false, u) later e f = by (deps.pause deadline u) refl
    where
      by :
          (p : Bool × S)
          → deps.pause deadline u ≡ p
          → ProbesMean deadline s (after_pause deps p (later p.1))
      by (true, v) q = (0, (s, u, refl, e, q))
      by (false, v) q = one_more deadline s u v (later v) e q (f v)

  probe_each-Mean :
      (fuel deadline : ℕ) (s : S) → ProbesMean deadline s (probe_each deps fuel deadline s)
  unfolding probe_each
  probe_each-Mean zero deadline s = tt
  probe_each-Mean (suc fuel) deadline s =
      after_probe-Mean deadline s (deps.spring_board_ready deadline s) _ refl
        (λ t. probe_each-Mean fuel deadline t)

  Probing-Means :
      (deadline : ℕ) (s t : S) (r : Readiness × S)
      → Probing deadline s t
      → ProbesMean deadline t r
      → AttemptMeans deadline s r
  Probing-Means deadline s t (is_ready, u) p m = (t, p, m)
  Probing-Means deadline s t (readiness_timed_out, u) p m = (t, p, m)
  Probing-Means deadline s t (readiness_pending, u) p m = (t, p, m)
  Probing-Means deadline s t (never_booted, u) p m = absurd m

  find-Means :
      (deadline : ℕ) (s u : S) (r : Option (Option Text) × S)
      → deps.bootstatus deadline s ≡ (false, u)
      → deps.find u ≡ r
      → AttemptMeans deadline s (after_find deps deadline r)
  find-Means deadline s u (o, t) e f = elim (Bool-cases (booted_anyway o)) [
    | inl b ↦ rw b (
        Probing-Means deadline s t _ (inr (u, e, (o, f, b)))
          (probe_each-Mean (probes deps deadline t) deadline t))
    | inr b ↦ rw b (u, e, (o, f, b))
  ]

  bootstatus-Means :
      (deadline : ℕ) (s : S) (r : Bool × S)
      → deps.bootstatus deadline s ≡ r
      → AttemptMeans deadline s (after_bootstatus deps deadline r)
  bootstatus-Means deadline s (true, t) e =
      Probing-Means deadline s t _ (inl e) (probe_each-Mean (probes deps deadline t) deadline t)
  bootstatus-Means deadline s (false, t) e = find-Means deadline s t (deps.find t) e refl

  wait_for_ready_once-Means :
      (deadline : ℕ) (s : S) → AttemptMeans deadline s (wait_for_ready_once deps deadline s)
  unfolding wait_for_ready_once
  wait_for_ready_once-Means deadline s =
      bootstatus-Means deadline s (deps.bootstatus deadline s) refl

  -- Two thirds of the timeout from the start.
  abbrev pub first_deadline : ℕ → S → ℕ
  first_deadline timeout s₀ = deps.now s₀ + timeout * 2 / 3

  -- The first attempt timed out at `s₁`, with at least two poll intervals of the timeout left.
  abbrev pub TimedOut : ℕ → S → S → Type 0
  TimedOut timeout s₀ s₁ =
      AttemptMeans (first_deadline timeout s₀) s₀ (readiness_timed_out, s₁)
      × (deps.now s₁ + min_retry_budget ≤ deps.now s₀ + timeout)

  -- The second attempt, after the device is shut down at `s₂`, and until what the first one left of
  -- the timeout has passed since then.
  abbrev pub Retried : ℕ → S → Readiness × S → Type 0
  Retried timeout s₀ r =
      (s₁ s₂ : S) × TimedOut timeout s₀ s₁
      × (deps.shutdown s₁ ≡ (true, s₂))
      × AttemptMeans (deps.now s₂ + (deps.now s₀ + timeout - deps.now s₁)) s₂ r

  -- The answer of one of the two attempts.
  abbrev pub Answered : ℕ → S → Readiness × S → Type 0
  Answered timeout s₀ r = AttemptMeans (first_deadline timeout s₀) s₀ r ⊎ Retried timeout s₀ r

  -- What stands behind the answer of the wait that starts at `s₀`.
  abbrev pub ResultMeans : ℕ → S → BootResult × S → Type 0
  ResultMeans timeout s₀ (boot_ready, s) =
      (t : S) × Answered timeout s₀ (is_ready, t) × (s ≡ deps.settle t)
  ResultMeans timeout s₀ (boot_failed, s) = Answered timeout s₀ (never_booted, s)
  ResultMeans timeout s₀ (no_time_left, s) =
      AttemptMeans (first_deadline timeout s₀) s₀ (readiness_timed_out, s)
      × (deps.now s₀ + timeout < deps.now s + min_retry_budget)
  ResultMeans timeout s₀ (retry_not_shut, s) =
      (s₁ : S) × TimedOut timeout s₀ s₁ × (deps.shutdown s₁ ≡ (false, s))
  ResultMeans timeout s₀ (boot_wedged, s) = Retried timeout s₀ (readiness_timed_out, s)
  ResultMeans timeout s₀ (boot_pending, s) = ⊥

  module _ (ticks : Ticks deps) (timeout : ℕ) (s₀ : S) where
    retry-Means :
        (r : Readiness × S)
        → Ended deps ticks r
        → Retried timeout s₀ r
        → ResultMeans timeout s₀ (after_retry deps r)
    retry-Means (is_ready, s) e m = (s, inr m, refl)
    retry-Means (never_booted, s) e m = inr m
    retry-Means (readiness_timed_out, s) e m = m
    retry-Means (readiness_pending, s) e m = e refl

    shutdown-Means :
        (s₁ : S) (r : Bool × S)
        → TimedOut timeout s₀ s₁
        → deps.shutdown s₁ ≡ r
        → ResultMeans timeout s₀ (retry deps (deps.now s₀ + timeout - deps.now s₁) r)
    shutdown-Means s₁ (false, s) m e = (s₁, m, e)
    shutdown-Means s₁ (true, s) m e =
        let deadline = deps.now s + (deps.now s₀ + timeout - deps.now s₁) in
        retry-Means (wait_for_ready_once deps deadline s)
          (wait_for_ready_once-Ended deps ticks deadline s)
          (s₁, s, m, e, wait_for_ready_once-Means deadline s)

    first-Means :
        (r : Readiness × S)
        → AttemptMeans (first_deadline timeout s₀) s₀ r
        → Ended deps ticks r
        → ResultMeans timeout s₀ (after_first_wait deps (deps.now s₀ + timeout) r)
    first-Means (is_ready, s) m e = (s, inl m, refl)
    first-Means (never_booted, s) m e = inl m
    first-Means (readiness_pending, s) m e = e refl
    first-Means (readiness_timed_out, s) m e =
        let remaining = deps.now s₀ + timeout - deps.now s in
        elim (Bool-cases (ltb remaining min_retry_budget)) [
          | inl short ↦ rw short (m, ground arith)
          | inr long ↦ rw long (shutdown-Means s (deps.shutdown s) (m, ground arith) refl)
        ]

  -- The wait for a simulator ends, where a probe does not turn the clock back and a pause that ends
  -- before its deadline takes the poll interval. It makes one attempt, until two thirds of the
  -- timeout; only where that times out with two poll intervals of the timeout left it shuts the
  -- device down and makes one more, for as long as the first left. It answers that the simulator is
  -- ready only when the last probe of one of them found SpringBoard running, and the settling margin
  -- has passed; that the boot failed only when bootstatus failed in one of them on a device that was
  -- then not found Booted; that no time is left only when the first timed out with less left than
  -- that; that the device was not shut down only when the shutdown between them failed; and that
  -- the device is wedged only when both timed out, each after a probe that did not find SpringBoard
  -- running.
  pub boot_and_wait-Means :
      (ticks : Ticks deps) (timeout : ℕ) (s : S)
      → ResultMeans timeout s (boot_and_wait deps timeout s)
  unfolding boot_and_wait
  boot_and_wait-Means ticks timeout s =
      let deadline = first_deadline timeout s in
      first-Means ticks timeout s (wait_for_ready_once deps deadline s)
        (wait_for_ready_once-Means deadline s) (wait_for_ready_once-Ended deps ticks deadline s)
