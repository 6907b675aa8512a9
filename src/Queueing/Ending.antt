-- ===== src/Queueing/Ending.antt =====
-- AcquireSlots ends, and what it ends with.
use simpool.Common.{
  ℕ, zero, suc, ◌+◌, ◌*◌, ◌/◌, ◌≤◌, ◌<◌, ◌≡◌, ◌≢◌, refl, ◌⊎◌, inl, inr, true, false, not, ◌||◌,
  Option, arith, ltb, ◌==◌, Bool-cases,
}
use simpool.Group.{World, os_of}
use simpool.Claims.{Context}
use simpool.Acquire.Clock.{KernelRuns, try_acquire_slots-later}
use simpool.Queueing.{
  acquire_poll_interval, is_at_capacity, QueueResult, tried, attempt, waited_out, poll, polls,
  acquire_slots,
}

module _ (c : Context) (percent count max : ℕ) (memory : World → Option (ℕ × ℕ)) where
  -- An attempt does not set the clock back, and a sleep takes at least the poll interval.
  abbrev pub ClockRuns : Type 0
  ClockRuns =
      (w : World)
      → ((os_of w).now ≤ (os_of (attempt c percent count max memory w).1).now)
        × ((os_of (attempt c percent count max memory w).1).now + acquire_poll_interval
            ≤ (os_of (c.sleep (attempt c percent count max memory w).1)).now)

  -- The loop goes from `w` to `v` in `k` attempts that each found the group full with the wait not
  -- over, each followed by a sleep.
  abbrev pub Retries : ℕ → ℕ → ℕ → World → World → Type 0
  Retries timeout deadline zero w v = v ≡ w
  Retries timeout deadline (suc k) w v =
      let x = attempt c percent count max memory w in
      (is_at_capacity x.0 ≡ true)
      × (waited_out c percent count max timeout deadline x.1 ≡ false)
      × Retries timeout deadline k (c.sleep x.1) v

  -- A result that ends the loop: it is of the attempt from a world that the loop came to, in the
  -- world that this attempt left, and it is final, or the wait is over.
  abbrev pub Final : ℕ → ℕ → World → QueueResult × World → Type 0
  Final timeout deadline w out =
      (k : ℕ) × ((v : World) × Retries timeout deadline k w v
        × (out ≡ (
          tried (attempt c percent count max memory v).0,
          (attempt c percent count max memory v).1,
        ))
        × ((is_at_capacity (attempt c percent count max memory v).0 ≡ false)
            ⊎ (waited_out c percent count max timeout deadline out.1 ≡ true)))

  retried :
      (timeout deadline : ℕ) (w : World) (out : QueueResult × World)
      → let x = attempt c percent count max memory w in
        (not (is_at_capacity x.0) || waited_out c percent count max timeout deadline x.1) ≡ false
        → Final timeout deadline (c.sleep x.1) out
        → Final timeout deadline w out
  retried timeout deadline w out e (k, (v, r, f, g)) =
      (suc k, (v, (ground arith, ground arith, r), f, g))

  poll-Final :
      (fuel timeout deadline : ℕ) (w : World)
      → ClockRuns
      → deadline < (os_of w).now + fuel * acquire_poll_interval
      → Final timeout deadline w (poll c percent count max (suc fuel) memory timeout deadline w)
  unfolding poll
  poll-Final zero timeout deadline w clock h =
      let x = attempt c percent count max memory w in
      elim (Bool-cases
        (not (is_at_capacity x.0) || waited_out c percent count max timeout deadline x.1)) [
          | inl e ↦ rw (e, poll) (0, (w, refl, refl, ground arith))
          | inr e ↦ absurd (ground (arith, clock w))
        ]
  poll-Final (suc fuel) timeout deadline w clock h =
      let x = attempt c percent count max memory w in
      elim (Bool-cases
        (not (is_at_capacity x.0) || waited_out c percent count max timeout deadline x.1)) [
          | inl e ↦ rw (e, poll) (0, (w, refl, refl, ground arith))
          | inr e ↦
              rw (e, poll)
                (retried timeout deadline w _ e
                  (poll-Final fuel timeout deadline (c.sleep x.1) clock (omega (arith, clock w))))
        ]

  -- A sleep takes the poll interval or longer.
  abbrev pub Sleeps : Type 0
  Sleeps = (w : World) → (os_of w).now + acquire_poll_interval ≤ (os_of (c.sleep w)).now

  -- Asked for at least one slot and at most `max`, if no answer of the kernel sets the clock back and
  -- each sleep takes two seconds or longer, AcquireSlots ends, for every wait: with the result and the
  -- world of an attempt that the loop came to, every earlier one of which found the group full before
  -- the wait was over; this last one either did not find it full, or came with the wait over.
  pub acquire_slots-Final :
      (timeout : ℕ) (w : World)
      → KernelRuns c.kernel
      → Sleeps
      → count ≢ 0
      → count ≤ max
      → Final timeout
          ((os_of w).now + timeout)
          w
          (acquire_slots c percent count max memory timeout w)
  unfolding acquire_slots
  acquire_slots-Final timeout w runs sleeps some_slot room =
      let bad : (count == 0 || ltb max count) ≡ false = ground arith in
      let f = timeout / acquire_poll_interval + 1 in
      let fuel : polls c percent count max timeout ≡ suc f = omega arith in
      let clock : ClockRuns = λ v. (
        try_acquire_slots-later c runs (memory v) percent count max v,
        sleeps (attempt c percent count max memory v).1,
      ) in
      rw (bad, fuel) (poll-Final f timeout ((os_of w).now + timeout) w clock (omega arith))
