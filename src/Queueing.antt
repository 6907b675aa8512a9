-- ===== src/Queueing.antt =====
-- internal/pool/slot.go: AcquireSlots, which tries until it has its slots, the error is another than
-- a full group, or the wait is over. `Context.sleep` is what others do while it sleeps; the notices
-- that it prints are left out.
pub mod Ending
use simpool.Common.{
  ℕ, zero, suc, ◌+◌, ◌*◌, ◌/◌, Bool, true, false, not, ◌&&◌, ◌||◌, List, Option, none, some, ltb,
  ◌==◌, if◌then◌else◌,
}
use simpool.Group.{World, os_of}
use simpool.Claims.{Context}
use simpool.Acquire.{
  AcquireResult, acquired, use_cap_reached, below_memory_floor, group_full, attempt_failed,
  try_acquire_slots,
}

-- acquirePollInterval, 2 seconds.
abbrev pub acquire_poll_interval : ℕ
acquire_poll_interval = 2_000_000_000

-- errors.Is(err, ErrAtCapacity)
abbrev pub is_at_capacity : AcquireResult → Bool
is_at_capacity (acquired ns) = false
is_at_capacity (use_cap_reached uses) = true
is_at_capacity (below_memory_floor refusals) = true
is_at_capacity (group_full refusals) = true
is_at_capacity attempt_failed = false

pub data QueueResult : Type 0 where
  tried : AcquireResult → QueueResult
  bad_arguments : QueueResult
  out_of_fuel : QueueResult

module _ (c : Context) (percent count max : ℕ) where
  -- One attempt, with the free memory that it reads.
  abbrev pub attempt : (World → Option (ℕ × ℕ)) → World → AcquireResult × World
  attempt memory w = try_acquire_slots c (memory w) percent count max w

  abbrev pub waited_out : ℕ → ℕ → World → Bool
  waited_out timeout deadline w = timeout == 0 || ltb deadline (os_of w).now

  -- The loop; `timeout` is 0 for one that is not positive.
  unfoldable pub poll : ℕ → (World → Option (ℕ × ℕ)) → ℕ → ℕ → World → QueueResult × World
  poll zero memory timeout deadline w = (out_of_fuel, w)
  poll (suc fuel) memory timeout deadline w =
      let x = attempt memory w in
      let rest = poll fuel memory timeout deadline (c.sleep x.1) in
      if not (is_at_capacity x.0) || waited_out timeout deadline x.1 then (tried x.0, x.1) else rest

  -- Polls for the whole wait, and two more.
  abbrev pub polls : ℕ → ℕ
  polls timeout = timeout / acquire_poll_interval + 2

  -- AcquireSlots
  unfoldable pub acquire_slots : (World → Option (ℕ × ℕ)) → ℕ → World → QueueResult × World
  acquire_slots memory timeout w =
      if count == 0 || ltb max count
      then (bad_arguments, w)
      else poll (polls timeout) memory timeout ((os_of w).now + timeout) w
