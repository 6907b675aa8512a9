-- ===== src/BootWait/Ending.antt =====
-- internal/simctl/simctl.go: an attempt to wait for a simulator ends.
use simpool.Common.{
  ℕ, zero, suc, ◌+◌, ◌-◌, ◌*◌, ◌/◌, ◌≤◌, ◌<◌, ◌≡◌, ◌≢◌, refl, inl, inr, Bool, true, false, Option,
  arith, Bool-cases,
}
use simpool.Text.{Text}
use simpool.BootWait.{
  BootWaitDeps, Readiness, readiness_pending, booted_anyway, after_pause, after_probe, probe_each,
  probes, after_find, after_bootstatus, wait_for_ready_once, spring_board_poll_interval,
}

module _ {S : Type 0} (deps : BootWaitDeps S) where
  -- A probe does not turn the clock back, and a pause that ends before the deadline has taken its
  -- interval.
  abbrev pub Ticks : Type 0
  Ticks =
      ((deadline : ℕ) (s : S) → deps.now s ≤ deps.now (deps.spring_board_ready deadline s).1)
      × ((deadline : ℕ) (s : S)
          → (deps.pause deadline s).0 ≡ false
          → (deps.now s < deadline)
            × (deps.now s + spring_board_poll_interval ≤ deps.now (deps.pause deadline s).1))

  module _ (ticks : Ticks) where
    abbrev pub Ended : Readiness × S → Type 0
    Ended r = r.0 ≢ readiness_pending

    after_pause-Ended :
        (deadline : ℕ) (s : S) (p : Bool × S) (later : Readiness × S)
        → (p.0 ≡ false → Ended later)
        → Ended (after_pause deps p later)
    after_pause-Ended deadline s (true, u) later f = λ h. cc
    after_pause-Ended deadline s (false, u) later f = f refl

    probe_each-Ended :
        (fuel deadline : ℕ) (s : S)
        → deadline < deps.now s + fuel * spring_board_poll_interval
        → Ended (probe_each deps (suc fuel) deadline s)
    unfolding probe_each
    probe_each-Ended zero deadline s h =
        by (deps.spring_board_ready deadline s) (ticks.0 deadline s)
      where
        by :
            (p : Bool × S)
            → deps.now s ≤ deps.now p.1
            → Ended (after_probe deps deadline p (λ t. probe_each deps zero deadline t))
        by (true, t) le = λ e. cc
        by (false, t) le =
            after_pause-Ended deadline t (deps.pause deadline t) _
              (λ e. absurd (omega (arith, (ticks.1 deadline t e).0)))
    probe_each-Ended (suc fuel) deadline s h =
        by (deps.spring_board_ready deadline s) (ticks.0 deadline s)
          (probe_each-Ended fuel deadline)
      where
        by :
            (p : Bool × S)
            → deps.now s ≤ deps.now p.1
            → ((t : S)
                → deadline < deps.now t + fuel * spring_board_poll_interval
                → Ended (probe_each deps (suc fuel) deadline t))
            → Ended (after_probe deps deadline p (λ t. probe_each deps (suc fuel) deadline t))
        by (true, t) le f = λ e. cc
        by (false, t) le f =
            after_pause-Ended deadline t (deps.pause deadline t) _
              (λ e. f (deps.pause deadline t).1 (omega (arith, (ticks.1 deadline t e).1)))

    probes-Ended :
        (deadline : ℕ) (s : S) → Ended (probe_each deps (probes deps deadline s) deadline s)
    probes-Ended deadline s =
        probe_each-Ended ((deadline - deps.now s) / spring_board_poll_interval + 1) deadline s
          (omega arith)

    find-Ended : (deadline : ℕ) (r : Option (Option Text) × S) → Ended (after_find deps deadline r)
    find-Ended deadline (o, s) = elim (Bool-cases (booted_anyway o)) [
      | inl b ↦ rw b (probes-Ended deadline s)
      | inr b ↦ rw b (λ e. cc)
    ]

    bootstatus-Ended : (deadline : ℕ) (r : Bool × S) → Ended (after_bootstatus deps deadline r)
    bootstatus-Ended deadline (true, s) = probes-Ended deadline s
    bootstatus-Ended deadline (false, s) = find-Ended deadline (deps.find s)

    pub wait_for_ready_once-Ended :
        (deadline : ℕ) (s : S) → Ended (wait_for_ready_once deps deadline s)
    unfolding wait_for_ready_once
    wait_for_ready_once-Ended deadline s = bootstatus-Ended deadline (deps.bootstatus deadline s)
