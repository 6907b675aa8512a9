-- ===== src/Passes/Fast.antt =====
-- A pass that is not full, the one a schedule runs every minute.
use simpool.Common.{
  ℕ, ◌≡◌, refl, inl, inr, Bool, false, List, [], ◌∷◌, ◌++◌, has, Bool-cases, ap, ◌∙◌,
}
use simpool.Poison.Recovery.{Act, killed_group, killed, shut_down, deleted, booted, scrubbed}
use simpool.Poison.Kills.{Adds, Adds-trans, Adds-weaken}
use simpool.Availability.{LockState, unlocked, locked, unopenable}
use simpool.Group.{World, os_of, numbers, slot_at}
use simpool.Reap.Held.{reap_held_slot}
use simpool.Reap.Quarantined.{Quarantines}
use simpool.Meta.{Meta}
use simpool.Procs.{Os}
use simpool.Poison.{Poison, check_poison}
use simpool.Reap.{Reaper, Limits}
use simpool.Reap.Idle.{OthersApart}
use simpool.Reap.Slot.{reap_by, reap_slot}
use simpool.Reap.Leased.{Reaps, reap_slot-Reaps}
use simpool.Reap.Stuck.{KillsStuck, reap_held_slot-Kills}
use simpool.Passes.{Passes, reap_each, reap_group, slot_limits}

-- An act after which every simulator is still there, with its data.
abbrev pub Gentle : Act → Type 0
Gentle (deleted u) = ⊥
Gentle (booted u) = ⊥
Gentle (scrubbed u) = ⊥
Gentle _ = Unit {0}

-- What is done on account of a quarantined slot, unless disowning was asked for.
Quarantines-Gentle :
    (r : Reaper) (o : Limits) (n : ℕ) (m : Meta) (p : Poison) (v : World) (a : Act)
    → o.disown ≡ false
    → Quarantines r o n m p v a
    → Gentle a
Quarantines-Gentle r o n m p v (killed_group g) d h = tt
Quarantines-Gentle r o n m p v (killed q) d h = tt
Quarantines-Gentle r o n m p v (shut_down u) d h = tt
Quarantines-Gentle r o n m p v (deleted u) d (dry, inl j) = j
Quarantines-Gentle r o n m p v (deleted u) d (dry, inr (inl (e, j))) = cc
Quarantines-Gentle r o n m p v (deleted u) d (dry, inr (inr (e, f, own))) = cc
Quarantines-Gentle r o n m p v (booted u) d (dry, inl j) = j
Quarantines-Gentle r o n m p v (booted u) d (dry, inr (inl (e, j))) = j
Quarantines-Gentle r o n m p v (booted u) d (dry, inr (inr (e, f, own))) = cc
Quarantines-Gentle r o n m p v (scrubbed u) d (dry, inl j) = j
Quarantines-Gentle r o n m p v (scrubbed u) d (dry, inr (inl (e, j))) = j
Quarantines-Gentle r o n m p v (scrubbed u) d (dry, inr (inr (e, f, own))) = cc

KillsStuck-Gentle :
    (r : Reaper) (o : Limits) (m : Meta) (os : Os) (a : Act) → KillsStuck r o m os a → Gentle a
KillsStuck-Gentle r o m os a h = rw h.0 tt

module _ (r : Reaper) (o : Limits) (others : OthersApart r.context) where
  -- Without a limit for deleting or cleaning up, nothing that the pass over a slot does is worse.
  Reaps-Gentle :
      (n : ℕ) (keep_warm : Bool) (v : World) (a : Act)
      → o.disown ≡ false
      → Reaps r (slot_limits false o) n keep_warm v a
      → Gentle a
  Reaps-Gentle n keep_warm v (killed_group g) d h = tt
  Reaps-Gentle n keep_warm v (killed q) d h = tt
  Reaps-Gentle n keep_warm v (shut_down u) d h = tt
  Reaps-Gentle n keep_warm v (deleted u) d (free, inl (clean, h)) = absurd (h.2 refl)
  Reaps-Gentle n keep_warm v (deleted u) d (free, inr (p, h)) =
      Quarantines-Gentle r (slot_limits false o) n (slot_at n v.slots).meta
        (check_poison (os_of v) (slot_at n v.slots).meta) v (deleted u) d h
  Reaps-Gentle n keep_warm v (booted u) d (free, inl (clean, h)) = h
  Reaps-Gentle n keep_warm v (booted u) d (free, inr (p, h)) =
      Quarantines-Gentle r (slot_limits false o) n (slot_at n v.slots).meta
        (check_poison (os_of v) (slot_at n v.slots).meta) v (booted u) d h
  Reaps-Gentle n keep_warm v (scrubbed u) d (free, inl (clean, h)) = absurd (h.2 refl)
  Reaps-Gentle n keep_warm v (scrubbed u) d (free, inr (p, h)) =
      Quarantines-Gentle r (slot_limits false o) n (slot_at n v.slots).meta
        (check_poison (os_of v) (slot_at n v.slots).meta) v (scrubbed u) d h

  module _ (owned : o.disown ≡ false) where
    reap_by-Gentle :
        (lock : LockState) (n : ℕ) (keep_warm : Bool) (w : World)
        → (slot_at n w.slots).lock ≡ lock
        → Adds Gentle w.machine (reap_slot r (slot_limits false o) n keep_warm w).machine
    unfolding reap_slot reap_by
    reap_by-Gentle unlocked n keep_warm w e =
        Adds-weaken _ Gentle w.machine (reap_slot r (slot_limits false o) n keep_warm w).machine
          (λ a h. Reaps-Gentle n keep_warm h.0 a owned h.2)
          (reap_slot-Reaps r (slot_limits false o) n keep_warm others w e)
    reap_by-Gentle locked n keep_warm w e =
        rw (e, reap_slot)
          (Adds-weaken _ Gentle w.machine (reap_held_slot r (slot_limits false o) n w).machine
            (KillsStuck-Gentle r (slot_limits false o) (slot_at n w.slots).meta (os_of w))
            (reap_held_slot-Kills r (slot_limits false o) n w))
    reap_by-Gentle unopenable n keep_warm w e = rw (e, reap_slot) ([], refl, tt)

    reap_each-Gentle :
        (kept ns : List ℕ) (w : World)
        → Adds Gentle w.machine (reap_each r (slot_limits false o) kept ns w).machine
    unfolding reap_each
    reap_each-Gentle kept [] w = ([], refl, tt)
    reap_each-Gentle kept (n ∷ ns) w =
        let w₁ = r.context.sleep w in
        let v = reap_slot r (slot_limits false o) n (has n kept) w₁ in
        elim (Bool-cases (has n (numbers w₁.slots))) [
          | inl e ↦
              let (new, f, a) =
                Adds-trans Gentle w₁.machine v.machine
                  (reap_each r (slot_limits false o) kept ns v).machine
                  (reap_by-Gentle (slot_at n w₁.slots).lock n (has n kept) w₁ refl)
                  (reap_each-Gentle kept ns v) in
              rw (e, reap_each) (new, f ∙ ap (λ acts. new ++ acts) (others w), a)
          | inr e ↦
              let (new, f, a) = reap_each-Gentle kept ns w₁ in
              rw (e, reap_each) (new, f ∙ ap (λ acts. new ++ acts) (others w), a)
        ]

-- A pass that is not full, without --disown-poisoned, whatever --purge and --scrub say, only kills
-- processes and shuts simulators down: every simulator is still there afterwards, with its data.
-- This holds where what other processes do is kept apart from the acts of this one.
pub reap_group-Gentle :
    (r : Reaper) (p : Passes)
    → OthersApart r.context
    → p.limits.disown ≡ false
    → (w : World) → Adds Gentle w.machine (reap_group r p false w).machine
unfolding reap_group
reap_group-Gentle r p others owned w =
    reap_each-Gentle r p.limits others owned _ (numbers w.slots) w
