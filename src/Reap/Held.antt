-- ===== src/Reap/Held.antt =====
-- internal/cli/reap.go: a slot whose flock is held (reapHeldSlot).
use simpool.Common.{
  ℕ, ◌+◌, Bool, false, not, ◌&&◌, List, [], ◌∷◌, Option, none, some, leb, ◌==◌, if◌then◌else◌,
}
use simpool.Text.{text_eq}
use simpool.Meta.{Meta, with_mode}
use simpool.Procs.{Os, alive, is_simpool_holder}
use simpool.Poison.Recovery.{killed, is_nil}
use simpool.Group.{World, os_of, slot_at}
use simpool.Reap.{Reaper, Limits}

abbrev pub childless : Option (List ℕ) → Bool
childless none = false
childless (some pids) = is_nil pids

-- Is process `h`, which has the lock file open, a `with` that its consumer left behind?
unfoldable pub is_stuck : Reaper → Limits → Meta → ℕ → Os → Bool
is_stuck r o m h os =
    alive os h
    && h == m.owner_pid
    && is_simpool_holder os h with_mode
    && childless (r.child_pids h os)
    && not (m.last_used == 0)
    && leb (m.last_used + o.stuck_after) os.now

abbrev pub kill_holder : Reaper → ℕ → World → World
kill_holder r h w = record w {
  machine = record { os = r.context.kernel.kill h w.machine.os; acts = killed h ∷ w.machine.acts };
}

-- The loop over the processes that have the lock file open.
unfoldable pub kill_stuck : Reaper → Limits → Meta → List ℕ → World → World
kill_stuck r o m [] w = w
kill_stuck r o m (h ∷ hs) w =
    let next = if is_stuck r o m h (os_of w) && not o.dry_run then kill_holder r h w else w in
    kill_stuck r o m hs next

abbrev pub kill_holders : Option (List ℕ) → Reaper → Limits → Meta → World → World
kill_holders none r o m w = w
kill_holders (some hs) r o m w = kill_stuck r o m hs w

-- reapHeldSlot
unfoldable pub reap_held_slot : Reaper → Limits → ℕ → World → World
reap_held_slot r o n w =
    let m = (slot_at n w.slots).meta in
    if text_eq m.mode with_mode then kill_holders (r.holders n (os_of w)) r o m w else w
