-- ===== src/Passes.antt =====
-- internal/cli/reap.go: RunReap over a root with one group: the pass over each slot, and, if this
-- run is a full one, those that enforce --max and --warm. `Context.sleep` stands for what other
-- processes do between two slots.
pub mod Fast
use simpool.Common.{
  ℕ, ◌+◌, Bool, true, false, not, ◌&&◌, ◌||◌, List, [], ◌∷◌, Option, none, some, ltb, leb, ◌==◌,
  if◌then◌else◌, has,
}
use simpool.Group.{Slots, World, os_of, numbers}
use simpool.SlotCap.{enforce_slot_cap}
use simpool.Reap.{Reaper, Limits}
use simpool.Reap.Slot.{reap_slot}
use simpool.Warm.{warm_kept, enforce_warm_cap, enforce_warm_floor}

-- The flags of the full passes, and what they ask of the machine.
pub record Passes : Type 0 where
  pub limits : Limits
  pub max : ℕ
  pub warm : ℕ
  pub stale_after : ℕ
  pub full_every : ℕ
  pub memory : World → Option (ℕ × ℕ)
  pub floor : ℕ
  pub unlisted : World → Bool

-- fullPassDue, by the time of the stamp of the last full pass
abbrev pub full_pass_due : ℕ → Option ℕ → ℕ → Bool
full_pass_due every none now = true
full_pass_due every (some stamp) now = every == 0 || leb (stamp + every) now

unfoldable pub latest_use : Slots → ℕ
latest_use [] = 0
latest_use ((n, d) ∷ rest) =
    let last = latest_use rest in if ltb last d.meta.last_used then d.meta.last_used else last

-- groupIdleBeyond
unfoldable pub group_idle_beyond : ℕ → ℕ → Slots → Bool
group_idle_beyond window now s =
    let last = latest_use s in not (last == 0) && leb (last + window) now

-- The limits of a pass that is not full: slotScrub and slotPurge are 0.
abbrev pub slot_limits : Bool → Limits → Limits
slot_limits true o = o
slot_limits false o = record o { purge_minutes = 0; scrub_minutes = 0 }

-- The loop over the slots of the group.
unfoldable pub reap_each : Reaper → Limits → List ℕ → List ℕ → World → World
reap_each r o kept [] w = w
reap_each r o kept (n ∷ ns) w =
    let w₁ = r.context.sleep w in
    let w₂ = if has n (numbers w₁.slots) then reap_slot r o n (has n kept) w₁ else w₁ in
    reap_each r o kept ns w₂

-- The passes of --max and --warm.
unfoldable pub full_passes : Reaper → Passes → World → World
full_passes r p w =
    let dry_run = p.limits.dry_run in
    let w₁ =
      if p.max == 0 || dry_run then w else enforce_slot_cap r.context p.unlisted r.mtime p.max w in
    let w₂ = enforce_warm_cap r.context dry_run p.warm w₁ in
    let w₃ = enforce_warm_floor r.context dry_run p.memory p.floor p.warm w₂ in
    if p.warm == 0
    then w₁
    else if group_idle_beyond p.stale_after (os_of w₂).now w₂.slots
    then w₂
    else w₃

-- RunReap, from the time that it decides whether the pass is full.
unfoldable pub reap_group : Reaper → Passes → Bool → World → World
reap_group r p full w =
    let stale = group_idle_beyond p.stale_after (os_of w).now w.slots in
    let kept = if stale then [] else warm_kept p.warm w in
    let w₁ = reap_each r (slot_limits full p.limits) kept (numbers w.slots) w in
    if full then full_passes r p w₁ else w₁
