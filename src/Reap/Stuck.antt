-- ===== src/Reap/Stuck.antt =====
-- Which process `reap` may kill in a slot whose flock is held.
use simpool.Common.{
  ℕ, ◌+◌, ◌≤◌, ◌≡◌, ◌≢◌, refl, inl, inr, true, false, not, ◌&&◌, List, [], ◌∷◌, Option, none, some,
  arith, Bool-cases, Option-cases, ap,
}
use simpool.Text.{text_eq, text_eq_iff}
use simpool.Meta.{Meta, with_mode}
use simpool.Procs.{Os, alive, is_simpool_holder}
use simpool.Poison.Recovery.{Act, killed}
use simpool.Poison.Kills.{Adds, Adds-trans}
use simpool.Group.{World, os_of, slot_at}
use simpool.Reap.{Reaper, Limits}
use simpool.Reap.Held.{is_stuck, kill_holder, kill_stuck, reap_held_slot, childless}

-- A process that the slot's meta.json names as the owner of its `with` run, that is alive, runs
-- `simpool with`, has no child, and started the run at least --stuck-after ago.
abbrev pub Stuck : Reaper → Limits → Meta → Os → ℕ → Type 0
Stuck r o m os q =
    (q ≡ m.owner_pid)
    × (m.mode ≡ with_mode)
    × (alive os q ≡ true)
    × (is_simpool_holder os q with_mode ≡ true)
    × (r.child_pids q os ≡ some [])
    × (m.last_used ≢ 0)
    × (m.last_used + o.stuck_after ≤ os.now)

-- The pass only kills, and only that process.
abbrev pub KillsStuck : Reaper → Limits → Meta → Os → Act → Type 0
KillsStuck r o m os a = (a ≡ killed m.owner_pid) × (o.dry_run ≡ false) × Stuck r o m os m.owner_pid

childless_of : (c : Option (List ℕ)) → childless c ≡ true → c ≡ some []
childless_of none h = cc
childless_of (some []) h = refl
childless_of (some (x ∷ xs)) h = cc

module _ (r : Reaper) (o : Limits) (m : Meta) (mode : m.mode ≡ with_mode) where
  is_stuck-Stuck :
      (h : ℕ) (os : Os)
      → is_stuck r o m h os ≡ true
      → (h ≡ m.owner_pid) × Stuck r o m os m.owner_pid
  unfolding is_stuck
  is_stuck-Stuck h os e =
      let owner : h ≡ m.owner_pid = ground arith in
      let none_left = childless_of (r.child_pids h os) (ground arith) in
      (
        owner,
        (
          refl,
          mode,
          rw⁻¹ owner (ground arith),
          rw⁻¹ owner (ground arith),
          rw⁻¹ owner none_left,
          ground arith,
          ground arith,
        ),
      )

  -- Once the owner was found stuck, all that follows is the owner again.
  kill_stuck-again :
      (os : Os) (hs : List ℕ) (w : World)
      → o.dry_run ≡ false
      → Stuck r o m os m.owner_pid
      → Adds (KillsStuck r o m os) w.machine (kill_stuck r o m hs w).machine
  unfolding kill_stuck
  kill_stuck-again os [] w dry s = ([], refl, tt)
  kill_stuck-again os (h ∷ hs) w dry s =
      elim (Bool-cases (is_stuck r o m h (os_of w) && not o.dry_run)) [
        | inr e ↦ rw (e, kill_stuck) (kill_stuck-again os hs w dry s)
        | inl e ↦
            let same = (is_stuck-Stuck h (os_of w) (ground arith)).0 in
            rw (e, kill_stuck)
              (Adds-trans (KillsStuck r o m os) w.machine (kill_holder r h w).machine
                (kill_stuck r o m hs (kill_holder r h w)).machine
                (killed h ∷ [], refl, ((ap killed same, dry, s), tt))
                (kill_stuck-again os hs (kill_holder r h w) dry s))
      ]

  kill_stuck-Kills :
      (hs : List ℕ) (w : World)
      → Adds (KillsStuck r o m (os_of w)) w.machine (kill_stuck r o m hs w).machine
  unfolding kill_stuck
  kill_stuck-Kills [] w = ([], refl, tt)
  kill_stuck-Kills (h ∷ hs) w = elim (Bool-cases (is_stuck r o m h (os_of w) && not o.dry_run)) [
    | inr e ↦ rw (e, kill_stuck) (kill_stuck-Kills hs w)
    | inl e ↦
        let dry : o.dry_run ≡ false = ground arith in
        let (same, s) = is_stuck-Stuck h (os_of w) (ground arith) in
        rw (e, kill_stuck)
          (Adds-trans (KillsStuck r o m (os_of w)) w.machine (kill_holder r h w).machine
            (kill_stuck r o m hs (kill_holder r h w)).machine
            (killed h ∷ [], refl, ((ap killed same, dry, s), tt))
            (kill_stuck-again (os_of w) hs (kill_holder r h w) dry s))
  ]

-- In a slot whose flock is held, `reap` does nothing but kill the process that meta.json names as
-- the owner of a `with` run, and that only outside a dry run, if it is alive, runs `simpool with`,
-- has no child, and started the run at least --stuck-after ago. A holder of any other mode is left
-- alone.
pub reap_held_slot-Kills :
    (r : Reaper) (o : Limits) (n : ℕ) (w : World)
    → let m = (slot_at n w.slots).meta in
      Adds (KillsStuck r o m (os_of w)) w.machine (reap_held_slot r o n w).machine
unfolding reap_held_slot
reap_held_slot-Kills r o n w =
    let m = (slot_at n w.slots).meta in
    elim (Bool-cases (text_eq m.mode with_mode)) [
      | inr e ↦ rw e ([], refl, tt)
      | inl e ↦ rw e (elim (Option-cases (r.holders n (os_of w))) [
        | inl f ↦ rw f ([], refl, tt)
        | inr (hs, f) ↦ rw f (kill_stuck-Kills r o m ((text_eq_iff m.mode with_mode).0 e) hs w)
      ])
    ]
