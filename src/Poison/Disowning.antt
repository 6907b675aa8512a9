-- ===== src/Poison/Disowning.antt =====
-- What `reap --disown-poisoned` (DisownPoisonedSlot) may do to processes, devices and meta.json.
use simpool.Common.{
  ℕ, ◌<◌, ◌≡◌, ◌≢◌, refl, ◌⊎◌, inl, inr, true, not, ◌&&◌, [], ◌∷◌, arith, any, Bool-cases,
}
use simpool.Text.{Text, text_eq, text_eq_iff, is_empty}
use simpool.Meta.{Meta, with_mode}
use simpool.Procs.{Os, alive}
use simpool.Poison.{
  Poison, PoisonReason, not_poisoned, by_consumer_pgid, by_live_consumers, by_check_failure,
  by_orphaned_residue, is_reclaimable_residue, residue_device_offline, residue_disownable,
}
use simpool.Poison.PidSets.{all_of_count}
use simpool.Poison.Recovery.{
  Act, killed_group, killed, shut_down, deleted, booted, scrubbed, Kernel, Machine, count,
  device_belongs_to_slot, kill_each, kill_and_verify, disowned, may_disown, disown_orphaned_residue,
  disown_poisoned_slot, disown_by,
}
use simpool.Poison.Kills.{Adds, kill_each-Adds}

-- When an act of `reap --disown-poisoned` is justified.
abbrev pub Disowns : Os → Text → Meta → Poison → Act → Type 0
Disowns os expected m p (killed_group g) = ⊥
Disowns os expected m p (killed q) =
    (residue_disownable p ≡ true)
    × (0 < count q p.residue_pids)
    × (is_reclaimable_residue os m.udid q ≡ true)
    × (residue_device_offline os m.udid ≡ true)
Disowns os expected m p (shut_down u) =
    (p.reason ≡ by_consumer_pgid)
    × (m.mode ≡ with_mode)
    × (u ≡ m.udid)
    × (device_belongs_to_slot os u expected ≡ true)
Disowns os expected m p (deleted u) =
    (p.reason ≡ by_consumer_pgid)
    × (m.mode ≡ with_mode)
    × (u ≡ m.udid)
    × (device_belongs_to_slot os u expected ≡ true)
Disowns os expected m p (booted u) = ⊥
Disowns os expected m p (scrubbed u) = ⊥

module _ (k : Kernel) (expected : Text) (m : Meta) (p : Poison) (w : Machine) where
  may_disown-residue :
      (q : ℕ)
      → may_disown w.os m p ≡ true
      → 0 < count q p.residue_pids
      → Disowns w.os expected m p (killed q)
  unfolding may_disown
  may_disown-residue q h c = (
    ground arith,
    c,
    all_of_count (is_reclaimable_residue w.os m.udid) p.residue_pids q (ground arith) c,
    ground arith,
  )

  disown_orphaned_residue-Adds :
      Adds (Disowns w.os expected m p) w (disown_orphaned_residue k m p w).2
  unfolding disown_orphaned_residue kill_and_verify
  disown_orphaned_residue-Adds = elim (Bool-cases (may_disown w.os m p)) [
    | inl e ↦
        rw e
          (elim (Bool-cases
            (any (alive (k.wait (kill_each k p.residue_pids w).os)) p.residue_pids)) [
              | inl a ↦ rw a (kills e)
              | inr a ↦ rw a (kills e)
            ])
    | inr e ↦ rw e ([], refl, tt)
  ]
    where
      kills :
          may_disown w.os m p ≡ true
          → Adds (Disowns w.os expected m p) w (kill_each k p.residue_pids w)
      kills e =
          kill_each-Adds k (Disowns w.os expected m p) p.residue_pids w
            (λ q c. may_disown-residue q e c)

  disown_by-Adds :
      (r : PoisonReason)
      → p.reason ≡ r
      → Adds (Disowns w.os expected m p) w (disown_by r k expected m p w).2
  unfolding disown_by
  disown_by-Adds not_poisoned e = ([], refl, tt)
  disown_by-Adds by_live_consumers e = ([], refl, tt)
  disown_by-Adds by_check_failure e = ([], refl, tt)
  disown_by-Adds by_orphaned_residue e = disown_orphaned_residue-Adds
  disown_by-Adds by_consumer_pgid e = elim (Bool-cases (text_eq m.mode with_mode)) [
    | inr t ↦ rw t ([], refl, tt)
    | inl t ↦
        let mode = (text_eq_iff m.mode with_mode).0 t in
        rw t
          (elim (Bool-cases
            (not (is_empty m.udid) && device_belongs_to_slot w.os m.udid expected)) [
              | inl own ↦ rw own (
                deleted m.udid ∷ shut_down m.udid ∷ [],
                refl,
                ((e, mode, refl, ground arith), ((e, mode, refl, ground arith), tt)),
              )
              | inr own ↦ rw own ([], refl, tt)
            ])
  ]

  -- Disowning a slot signals no process group; it kills a process only if the verdict names it, it
  -- is residue now and its device is confirmed not running now; and it shuts down or deletes a
  -- device only for a `with` consumer's slot and under this slot's own name.
  pub disown_poisoned_slot-Disowns :
      Adds (Disowns w.os expected m p) w (disown_poisoned_slot k expected m p w).2
  unfolding disown_poisoned_slot
  disown_poisoned_slot-Disowns = disown_by-Adds p.reason refl

  -- A slot that was disowned remembers no device; any other outcome leaves meta.json as it was.
  pub disown_poisoned_slot-meta :
      let (outcome, m', _) = disown_poisoned_slot k expected m p w in
      ((outcome ≡ disowned) × (m'.udid ≡ [])) ⊎ ((outcome ≢ disowned) × (m' ≡ m))
  unfolding disown_poisoned_slot disown_by disown_orphaned_residue
  disown_poisoned_slot-meta = ground arith
