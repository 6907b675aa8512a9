-- ===== src/Reap/Idle.antt =====
-- What the pass over a slot that is free and not poisoned may do to its simulator.
use simpool.Common.{
  ℕ, ◌+◌, ◌≤◌, ◌≡◌, refl, ◌≢◌, inl, inr, Bool, true, false, ◌||◌, not, [], ◌∷◌, none, some, arith,
  ◌==◌, Bool-cases, Option-cases, ◌∙◌, ap,
}
use simpool.Text.{Text, text_eq, text_eq_iff, is_empty}
use simpool.Meta.{Meta}
use simpool.Procs.{Device}
use simpool.Poison.Recovery.{Act, shut_down, deleted, scrubbed}
use simpool.Poison.Kills.{Adds, Adds-trans}
use simpool.Group.{World, os_of}
use simpool.Claims.{Context}
use simpool.Reap.{
  Reaper, Limits, booted_state, find_device, own_name, write_marker, idle_shutdown, never_used,
  idle_below, minutes, remove_slot_dir, scrub_slot, purge_slot, remove_dead_slot_dir, reap_device,
  reap_idle, past_grace,
}

-- At `now`, a slot has been idle for `bound`; one that was never used, for 999999 hours.
abbrev pub IdleFor : ℕ → Meta → ℕ → Type 0
IdleFor now m bound =
    (m.last_used ≡ 0 → bound ≤ never_used) × (m.last_used ≢ 0 → m.last_used + bound ≤ now)

idle_for : (now : ℕ) (m : Meta) (bound : ℕ) → idle_below now m bound ≡ false → IdleFor now m bound
unfolding idle_below
idle_for now m bound h = (λ e. ground arith, λ ne. ground arith)

-- What other processes do is not among the acts of this one.
abbrev pub OthersApart : Context → Type 0
OthersApart c = (w : World) → (c.sleep w).machine.acts ≡ w.machine.acts

-- The device that meta.json names is listed, under the slot's own name, in a state that satisfies
-- `P`.
abbrev pub OwnDevice : Reaper → ℕ → Meta → World → (Text → Type 0) → Type 0
OwnDevice r n m w P =
    (d : Device) × (find_device r.snapshot (os_of w) m.udid ≡ some (some d))
    × (d.name ≡ own_name r.context n)
    × P d.state

-- What stands behind an act of the pass.
abbrev pub Idles : Reaper → Limits → ℕ → Meta → Bool → World → Act → Type 0
Idles r o n m keep_warm w (shut_down u) =
    (u ≡ m.udid)
    × (o.dry_run ≡ false)
    × (keep_warm ≡ false)
    × IdleFor (os_of w).now m o.cold
    × OwnDevice r n m w (λ state. state ≡ booted_state)
Idles r o n m keep_warm w (scrubbed u) =
    (u ≡ m.udid)
    × (o.dry_run ≡ false)
    × (o.scrub_minutes ≢ 0)
    × IdleFor (os_of w).now m o.cold
    × IdleFor (os_of w).now m (minutes o.scrub_minutes)
    × OwnDevice r n m w (λ state. state ≢ booted_state)
Idles r o n m keep_warm w (deleted u) =
    (u ≡ m.udid)
    × (o.dry_run ≡ false)
    × (o.purge_minutes ≢ 0)
    × IdleFor (os_of w).now m o.cold
    × IdleFor (os_of w).now m (minutes o.purge_minutes)
    × OwnDevice r n m w (λ state. state ≢ booted_state)
Idles r o n m keep_warm w _ = ⊥

-- A removal of the directory adds no act.
pub remove-acts :
    (c : Context) (n : ℕ) (w : World)
    → OthersApart c
    → (remove_slot_dir c n w).machine.acts ≡ w.machine.acts
unfolding remove_slot_dir
remove-acts c n w others = others w

write_marker-acts :
    (marks : Bool) (n : ℕ) (w : World) → (write_marker marks n none w).machine.acts ≡ w.machine.acts
write_marker-acts true n w = refl
write_marker-acts false n w = refl

-- An idle shutdown adds that one act.
pub idle_shutdown-acts :
    (r : Reaper) (n : ℕ) (udid : Text) (w : World)
    → (idle_shutdown r n udid w).machine.acts ≡ shut_down udid ∷ w.machine.acts
unfolding idle_shutdown
idle_shutdown-acts r n udid w = elim (Bool-cases r.marks) [ inl e ↦ rw e refl | inr e ↦ rw e refl ]

module _ (r : Reaper) (o : Limits) (n : ℕ) (m : Meta) (keep_warm : Bool) (w : World)
    (others : OthersApart r.context) (cold : IdleFor (os_of w).now m o.cold) where
  abbrev P : Act → Type 0
  P = Idles r o n m keep_warm w

  scrub_slot-Adds :
      OwnDevice r n m w (λ state. state ≢ booted_state)
      → Adds P w.machine (scrub_slot r o (os_of w).now m w).machine
  unfolding scrub_slot
  scrub_slot-Adds own =
      let now = (os_of w).now in
      elim (Bool-cases
        (o.scrub_minutes == 0 || idle_below now m (minutes o.scrub_minutes) || o.dry_run)) [
          | inl e ↦ rw e ([], refl, tt)
          | inr e ↦ rw e (
            scrubbed m.udid ∷ [],
            refl,
            (
              (
                refl,
                ground arith,
                ground arith,
                cold,
                idle_for now m (minutes o.scrub_minutes) (ground arith),
                own,
              ),
              tt,
            ),
          )
        ]

  purge_slot-Adds :
      (v : World)
      → OwnDevice r n m w (λ state. state ≢ booted_state)
      → Adds P v.machine (purge_slot r o (os_of w).now n m v).machine
  unfolding purge_slot
  purge_slot-Adds v own =
      let now = (os_of w).now in
      elim (Bool-cases
        (o.purge_minutes == 0 || idle_below now m (minutes o.purge_minutes) || o.dry_run)) [
          | inl e ↦ rw e ([], refl, tt)
          | inr e ↦
              let one : P (deleted m.udid) = (
                refl,
                ground arith,
                ground arith,
                cold,
                idle_for now m (minutes o.purge_minutes) (ground arith),
                own,
              ) in
              rw e (elim (Bool-cases (r.context.kernel.delete m.udid v.machine.os).0) [
                | inl g ↦ rw g (deleted m.udid ∷ [], remove-acts r.context n _ others, (one, tt))
                | inr g ↦ rw g (deleted m.udid ∷ [], refl, (one, tt))
              ])
        ]

  reap_found-Adds :
      (d : Device)
      → find_device r.snapshot (os_of w) m.udid ≡ some (some d)
      → Adds P w.machine (reap_device (some (some d)) r o n m keep_warm w).machine
  unfolding reap_device
  reap_found-Adds d found = elim (Bool-cases (text_eq d.name (own_name r.context n))) [
    | inr e ↦ rw e ([], refl, tt)
    | inl e ↦
        let name = (text_eq_iff d.name (own_name r.context n)).0 e in
        rw e (elim (Bool-cases (text_eq d.state booted_state)) [
          | inl b ↦ rw b (elim (Bool-cases (keep_warm || o.dry_run)) [
            | inl k ↦ rw k ([], refl, tt)
            | inr k ↦ rw k (
              shut_down m.udid ∷ [],
              idle_shutdown-acts r n m.udid w,
              (
                (
                  refl,
                  ground arith,
                  ground arith,
                  cold,
                  (d, found, name, (text_eq_iff d.state booted_state).0 b),
                ),
                tt,
              ),
            )
          ])
          | inr b ↦
              let ne : d.state ≢ booted_state =
                λ e. ground (arith, text_eq_iff d.state booted_state) in
              let own : OwnDevice r n m w (λ state. state ≢ booted_state) = (d, found, name, ne) in
              let v = scrub_slot r o (os_of w).now m w in
              let scrubbed_first = scrub_slot-Adds own in
              rw b (
                Adds-trans P w.machine v.machine (purge_slot r o (os_of w).now n m v).machine
                  scrubbed_first (purge_slot-Adds v own))
        ])
  ]

module _ (r : Reaper) (o : Limits) (n : ℕ) (m : Meta) (keep_warm : Bool) (w : World)
    (others : OthersApart r.context) where
  past_cold-Adds :
      IdleFor (os_of w).now m o.cold
      → Adds
          (Idles r o n m keep_warm w)
          w.machine
          (reap_device (find_device r.snapshot (os_of w) m.udid) r o n m keep_warm w).machine
  unfolding reap_device
  past_cold-Adds cold = elim (Option-cases (find_device r.snapshot (os_of w) m.udid)) [
    | inl e ↦ rw e ([], refl, tt)
    | inr (found, e) ↦ elim (Option-cases found) [
      | inl f ↦ rw (e, f) ([], refl, tt)
      | inr (d, f) ↦ rw (e, f) (reap_found-Adds r o n m keep_warm w others cold d (e ∙ ap some f))
    ]
  ]

  -- In a slot that is free and not poisoned, the pass shuts down, cleans up or deletes only the
  -- simulator that meta.json names, only if a listing shows it under the slot's own name, only if
  -- the slot has been idle for --cold, and never in a dry run. It shuts it down only if it is booted
  -- and not one of the slots that --warm keeps; it cleans it up or deletes it only if it is not
  -- booted and the slot has been idle for --scrub or --purge, which are not 0. This holds where what
  -- other processes do is kept apart from the acts of this one.
  pub reap_idle-Idles :
      Adds (Idles r o n m keep_warm w) w.machine (reap_idle r o n m keep_warm w).machine
  unfolding reap_idle remove_dead_slot_dir
  reap_idle-Idles = elim (Bool-cases (idle_below (os_of w).now m o.cold)) [
    | inl e ↦ rw e ([], refl, tt)
    | inr e ↦ rw e (elim (Bool-cases (is_empty m.udid)) [
      | inr u ↦ rw u (past_cold-Adds (idle_for (os_of w).now m o.cold e))
      | inl u ↦
          rw u
            (elim (Bool-cases
              (o.purge_minutes == 0 || not (past_grace (os_of w).now (r.mtime n)) || o.dry_run)) [
                | inl g ↦ rw g ([], refl, tt)
                | inr g ↦ rw g ([], remove-acts r.context n w others, tt)
              ])
    ])
  ]
