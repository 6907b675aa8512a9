-- ===== src/Leases/Waiting.antt =====
-- The wait for an idle shutdown ends before its fuel does.
use simpool.Common.{
  ℕ, zero, suc, ◌+◌, ◌*◌, ◌≤◌, ◌<◌, ◌≡◌, refl, sym, inl, inr, false, ◌&&◌, arith, ltb, Bool-cases,
}
use simpool.Text.{Text}
use simpool.Group.{World, os_of, slot_at, shutdown_in_progress}
use simpool.Claims.{Context}
use simpool.Leases.{wait_marker}

-- idleShutdownPoll, 250 milliseconds.
abbrev pub idle_shutdown_poll : ℕ
idle_shutdown_poll = 250_000_000

module _ (c : Context) (key : Text) (ttl max : ℕ) where
  -- A sleep takes at least one poll.
  abbrev pub Sleeps : Type 0
  Sleeps = (w : World) → (os_of w).now + idle_shutdown_poll ≤ (os_of (c.sleep w)).now

  marker_settles :
      (polls deadline n : ℕ) (w : World)
      → Sleeps
      → deadline < (os_of w).now + polls * idle_shutdown_poll
      → let w' = wait_marker c key ttl max polls deadline n w in
        (shutdown_in_progress (os_of w') (slot_at n w'.slots) && ltb (os_of w').now deadline)
        ≡ false
  unfolding wait_marker
  marker_settles zero deadline n w s h = ground arith
  marker_settles (suc polls) deadline n w s h =
      elim (Bool-cases
        (shutdown_in_progress (os_of w) (slot_at n w.slots) && ltb (os_of w).now deadline)) [
          | inl e ↦
              rw (e, wait_marker)
                (marker_settles polls deadline n (c.sleep w) s (omega (arith, s w)))
          | inr e ↦ rw (e, wait_marker) e
        ]

  settled_stays :
      (polls deadline n : ℕ) (w : World)
      → deadline ≤ (os_of w).now
      → wait_marker c key ttl max polls deadline n w ≡ w
  unfolding wait_marker
  settled_stays zero deadline n w h = refl
  settled_stays (suc polls) deadline n w h = ground arith

  same_wait :
      (a b deadline n : ℕ) (w : World)
      → Sleeps
      → deadline < (os_of w).now + a * idle_shutdown_poll
      → deadline < (os_of w).now + b * idle_shutdown_poll
      → wait_marker c key ttl max a deadline n w ≡ wait_marker c key ttl max b deadline n w
  unfolding wait_marker
  same_wait zero b deadline n w s h k = sym (settled_stays b deadline n w (omega arith))
  same_wait (suc a) zero deadline n w s h k = settled_stays (suc a) deadline n w (omega arith)
  same_wait (suc a) (suc b) deadline n w s h k =
      let later =
        same_wait a b deadline n (c.sleep w) s (omega (arith, s w)) (omega (arith, s w)) in
      rw later refl

  -- If every sleep takes 250 milliseconds or longer, the wait of 60 seconds for an idle shutdown
  -- ends within 241 polls, with the marker gone or the deadline past, and more fuel than that does
  -- not change what it returns.
  pub wait_marker-settles :
      (fuel n : ℕ) (w : World)
      → Sleeps
      → 241 ≤ fuel
      → let deadline = (os_of w).now + 60_000_000_000 in
        let w' = wait_marker c key ttl max 241 deadline n w in
        ((shutdown_in_progress (os_of w') (slot_at n w'.slots) && ltb (os_of w').now deadline)
          ≡ false)
        × (wait_marker c key ttl max fuel deadline n w ≡ w')
  wait_marker-settles fuel n w s f = (
    marker_settles 241 ((os_of w).now + 60_000_000_000) n w s (omega arith),
    same_wait fuel 241 ((os_of w).now + 60_000_000_000) n w s (omega arith) (omega arith),
  )
