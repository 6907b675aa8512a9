-- ===== src/Reap/Quarantined.antt =====
-- What the pass over a quarantined slot may do to processes and simulators.
use simpool.Common.{
  ◌≡◌, refl, ◌⊎◌, inl, inr, true, false, not, ◌||◌, [], ◌∷◌, Option, none, some, arith, Bool-cases,
  ℕ,
}
use simpool.Text.{Text, text_eq_iff, is_empty}
use simpool.Meta.{Meta}
use simpool.Procs.{Device}
use simpool.Poison.{Poison, no_declaration}
use simpool.Poison.Recovery.{Act, shut_down, attempt_recovery}
use simpool.Poison.Kills.{Adds, Adds-trans, Adds-weaken, Justified, attempt_recovery-Justified}
use simpool.Poison.Disowning.{Disowns, disown_poisoned_slot-Disowns}
use simpool.Group.{World, os_of}
use simpool.Claims.{recover_slot}
use simpool.Reap.{
  Reaper, Limits, booted_state, find_device, own_name, in_state, shutdown_quarantined, disown_slot,
  reap_poisoned,
}
use simpool.Reap.Idle.{OwnDevice, idle_shutdown-acts}

-- The machine after a recovery of the slot was tried.
abbrev pub tried : Reaper → ℕ → Meta → Poison → World → World
tried r n m p w = (recover_slot r.context n m p w).1

-- What stands behind an act of the pass: the recovery's own reasons, those of --disown-poisoned if
-- it was asked for, or, if it was not, a shutdown of the slot's own booted simulator.
abbrev pub Quarantines : Reaper → Limits → ℕ → Meta → Poison → World → Act → Type 0
Quarantines r o n m p w a =
    (o.dry_run ≡ false)
    × (Justified r.context.kernel (os_of w) (own_name r.context n) m p a
        ⊎ (((o.disown ≡ true) × Disowns (os_of (tried r n m p w)) (own_name r.context n) m p a)
            ⊎ ((o.disown ≡ false)
                × (a ≡ shut_down m.udid)
                × OwnDevice r n m (tried r n m p w) (λ state. state ≡ booted_state))))

in_state-found :
    (state want : Text) (found : Option (Option Device))
    → in_state state want found ≡ true
    → (d : Device) × (found ≡ some (some d)) × (d.name ≡ want) × (d.state ≡ state)
in_state-found state want none h = cc
in_state-found state want (some none) h = cc
in_state-found state want (some (some d)) h = (
  d,
  refl,
  (text_eq_iff d.name want).0 (ground arith),
  (text_eq_iff d.state state).0 (ground arith),
)

module _ (r : Reaper) (n : ℕ) (m : Meta) (w : World) where
  abbrev Shuts : Act → Type 0
  Shuts a = (a ≡ shut_down m.udid) × OwnDevice r n m w (λ state. state ≡ booted_state)

  pub shutdown_quarantined-Adds :
      Adds Shuts w.machine (shutdown_quarantined r n m false w).1.machine
  unfolding shutdown_quarantined
  shutdown_quarantined-Adds =
      let found = find_device r.snapshot (os_of w) m.udid in
      elim (Bool-cases
        (is_empty m.udid || not (in_state booted_state (own_name r.context n) found))) [
          | inl e ↦ rw e ([], refl, tt)
          | inr e ↦ rw e (
            shut_down m.udid ∷ [],
            idle_shutdown-acts r n m.udid w,
            ((refl, in_state-found booted_state (own_name r.context n) found (ground arith)), tt),
          )
        ]

module _ (r : Reaper) (o : Limits) (n : ℕ) (m : Meta) (p : Poison) (w : World) where
  recover_slot-Adds :
      Adds
        (Justified r.context.kernel (os_of w) (own_name r.context n) m p)
        w.machine
        (tried r n m p w).machine
  unfolding recover_slot attempt_recovery
  recover_slot-Adds =
      attempt_recovery-Justified r.context.kernel (own_name r.context n) m p no_declaration
        w.machine

  disown_slot-Adds :
      (v : World)
      → Adds
          (Disowns (os_of v) (own_name r.context n) m p)
          v.machine
          (disown_slot r.context n m p v).machine
  unfolding disown_slot
  disown_slot-Adds v =
      disown_poisoned_slot-Disowns r.context.kernel (own_name r.context n) m p v.machine

  -- The branches of the pass, for any predicate that holds of the acts of each.
  branches-Adds :
      (Q : Act → Type 0)
      → (o.dry_run ≡ false → Adds Q w.machine (tried r n m p w).machine)
      → (o.dry_run ≡ false
          → o.disown ≡ true
          → Adds Q w.machine (disown_slot r.context n m p (tried r n m p w)).machine)
      → (o.dry_run ≡ false
          → o.disown ≡ false
          → Adds Q w.machine (shutdown_quarantined r n m false (tried r n m p w)).1.machine)
      → Adds Q w.machine (reap_poisoned r o n m p w).machine
  unfolding reap_poisoned
  branches-Adds Q first disowns shuts = elim (Bool-cases o.dry_run) [
    | inl dry ↦ rw dry ([], refl, tt)
    | inr dry ↦ rw dry (elim (Bool-cases (recover_slot r.context n m p w).0) [
      | inl done ↦ rw done (first dry)
      | inr done ↦
          rw done (elim (Bool-cases o.disown) [
            | inl d ↦ rw d (disowns dry d)
            | inr d ↦ rw d (shuts dry d)
          ])
    ])
  ]

  -- In a quarantined slot, whatever the machine answers, every act of the pass is one that the
  -- recovery is justified in; or one that disowning is justified in, on the machine as the recovery
  -- left it, and then --disown-poisoned was given; or, where it was not given, the shutdown of the
  -- simulator that meta.json names, which a listing shows booted and under the slot's own name. In a
  -- dry run there is none.
  pub reap_poisoned-Quarantines :
      Adds (Quarantines r o n m p w) w.machine (reap_poisoned r o n m p w).machine
  reap_poisoned-Quarantines =
      let Q = Quarantines r o n m p w in
      let v = tried r n m p w in
      let first : o.dry_run ≡ false → Adds Q w.machine v.machine =
        λ dry. Adds-weaken _ Q w.machine v.machine (λ a j. (dry, inl j)) recover_slot-Adds in
      branches-Adds Q first
        (λ dry d.
          let u = disown_slot r.context n m p v in
          Adds-trans Q w.machine v.machine u.machine (first dry) (
            Adds-weaken _ Q v.machine u.machine (λ a h. (dry, inr (inl (d, h))))
              (disown_slot-Adds v)))
        (λ dry d.
          let u = (shutdown_quarantined r n m false v).1 in
          Adds-trans Q w.machine v.machine u.machine (first dry) (
            Adds-weaken _ Q v.machine u.machine (λ a h. (dry, inr (inr (d, h.0, h.1))))
              (shutdown_quarantined-Adds r n m v)))
