-- ===== src/Ghosts/Pruned.antt =====
-- Which simulators the pass over ghosts may delete.
use simpool.Common.{
  ℕ, ◌≡◌, refl, ◌⊎◌, inl, inr, Bool, true, false, not, ◌||◌, List, [], ◌∷◌, ◌++◌, Option, none,
  some, arith, Bool-cases, ◌∙◌, ap, has,
}
use simpool.Text.{Text, text_eq, text_eq_iff}
use simpool.Procs.{Device}
use simpool.Poison.{poisoned, check_poison}
use simpool.Poison.Recovery.{Act, deleted, killed_group, killed, shut_down, booted, scrubbed}
use simpool.Poison.Kills.{Adds, Adds-trans, Adds-weaken}
use simpool.Availability.{LockState, unlocked, locked, unopenable}
use simpool.Group.{World, os_of, numbers, slot_at, unlock}
use simpool.Group.Slots.{slot_at-put_slot_self}
use simpool.Claims.{Context}
use simpool.Reclaims.{free_of_lease}
use simpool.Reap.{own_name, remove_slot_dir}
use simpool.Reap.Idle.{OthersApart, remove-acts}
use simpool.Reap.Slot.{lock_slot}
use simpool.Reap.Leased.{give_up-acts}
use simpool.Orphans.Spared.{In}
use simpool.Simctl.{Runtime}
use simpool.Ghosts.{
  GhostSlot, find_ghosts, delete_ghost_device, finish_pruning, prune_locked, prune_if, prune_next,
  prune_each, prune_found, prune_ghost_slots,
}
use simpool.Ghosts.Found.{Unavailable, Found, Listed, find_ghosts-Listed}

module _ (c : Context) where
  -- The pass over the ghosts `gs` from `w` comes to the turn of the ghost `g` in the world `v`.
  abbrev pub Turn : List GhostSlot → World → GhostSlot → World → Type 0
  Turn [] w g v = ⊥
  Turn (h ∷ gs) w g v = ((g ≡ h) × (v ≡ c.sleep w)) ⊎ Turn gs (prune_next c h (c.sleep w)) g v

  -- The deletion at the turn of the ghost `g` in `v`: its slot's flock is free there and then taken,
  -- no lease is live and lease.json can be read, no previous consumer is found, and the simulator
  -- that was found for this ghost, unavailable, has the name of this slot.
  abbrev pub DeletesAt : List Device → GhostSlot → World → Text → Type 0
  DeletesAt ds g v u =
      let slot = slot_at g.number v.slots in
      (slot.lock ≡ unlocked)
      × (free_of_lease (os_of v).now slot.lease_file ≡ true)
      × (poisoned (check_poison (os_of v) slot.meta).reason ≡ false)
      × ((d : Device) × (g.device ≡ some d)
          × In d ds
          × (d.udid ≡ u)
          × (d.is_available ≡ false)
          × (d.name ≡ own_name c g.number))

  -- An act of the pass over `gs` from `w`.
  abbrev pub Prunes : List Device → List GhostSlot → World → Act → Type 0
  Prunes ds gs w (deleted u) = (g : GhostSlot) × ((v : World) × Turn gs w g v × DeletesAt ds g v u)
  Prunes ds gs w _ = ⊥

  -- An act at one ghost's turn.
  abbrev One : List Device → GhostSlot → World → Act → Type 0
  One ds g v (deleted u) = DeletesAt ds g v u
  One ds g v _ = ⊥

  module _ (others : OthersApart c) (ds : List Device) where
    first_turn :
        (g : GhostSlot) (gs : List GhostSlot) (w : World) (a : Act)
        → One ds g (c.sleep w) a
        → Prunes ds (g ∷ gs) w a
    first_turn g gs w (deleted u) h = (g, (c.sleep w, inl (refl, refl), h))
    first_turn g gs w (killed_group n) h = h
    first_turn g gs w (killed n) h = h
    first_turn g gs w (shut_down u) h = h
    first_turn g gs w (booted u) h = h
    first_turn g gs w (scrubbed u) h = h

    later_turn :
        (g : GhostSlot) (gs : List GhostSlot) (w : World) (a : Act)
        → Prunes ds gs (prune_next c g (c.sleep w)) a
        → Prunes ds (g ∷ gs) w a
    later_turn g gs w (deleted u) (h, (v, turn, p)) = (h, (v, inr turn, p))
    later_turn g gs w (killed_group n) h = h
    later_turn g gs w (killed n) h = h
    later_turn g gs w (shut_down u) h = h
    later_turn g gs w (booted u) h = h
    later_turn g gs w (scrubbed u) h = h

    finish-acts :
        (n : ℕ) (r : Bool × World) → (finish_pruning c n r).machine.acts ≡ r.1.machine.acts
    unfolding unlock
    finish-acts n (false, w) = refl
    finish-acts n (true, w) =
        ap (λ m. m.acts) (give_up-acts n (remove_slot_dir c n w)) ∙ remove-acts c n w others

    delete-Adds :
        (g : GhostSlot) (o : Option Device) (v w : World)
        → g.device ≡ o
        → Unavailable ds o
        → (slot_at g.number v.slots).lock ≡ unlocked
        → free_of_lease (os_of v).now (slot_at g.number v.slots).lease_file ≡ true
        → poisoned (check_poison (os_of v) (slot_at g.number v.slots).meta).reason ≡ false
        → Adds (One ds g v) w.machine (delete_ghost_device c g.number o w).1.machine
    unfolding delete_ghost_device
    delete-Adds g none v w is h lock lease poison = ([], refl, tt)
    delete-Adds g (some d) v w is h lock lease poison =
        elim (Bool-cases (text_eq d.name (own_name c g.number))) [
          | inr e ↦ rw e ([], refl, tt)
          | inl e ↦
              let name = (text_eq_iff d.name (own_name c g.number)).0 e in
              rw e (
                deleted d.udid ∷ [],
                refl,
                ((lock, lease, poison, (d, is, h.0, refl, h.1, name)), tt),
              )
        ]

    prune_if-Adds :
        (lock : LockState) (g : GhostSlot) (v : World)
        → (slot_at g.number v.slots).lock ≡ lock
        → Unavailable ds g.device
        → Adds (One ds g v) v.machine (prune_if lock c g v).machine
    unfolding prune_locked unlock
    prune_if-Adds locked g v e h = ([], refl, tt)
    prune_if-Adds unopenable g v e h = ([], refl, tt)
    prune_if-Adds unlocked g v free h =
        let w = lock_slot g.number v in
        let slot = slot_at g.number w.slots in
        let same : slot ≡ record (slot_at g.number v.slots) { lock = locked } =
          slot_at-put_slot_self g.number _ v.slots in
        let spared =
          not (free_of_lease (os_of w).now slot.lease_file)
          || poisoned (check_poison (os_of w) slot.meta).reason in
        elim (Bool-cases spared) [
          | inl e ↦ rw e ([], refl, tt)
          | inr e ↦
              let r = delete_ghost_device c g.number g.device w in
              let lease : free_of_lease (os_of w).now slot.lease_file ≡ true = ground arith in
              let poison : poisoned (check_poison (os_of w) slot.meta).reason ≡ false =
                ground arith in
              let (new, f, a) =
                delete-Adds g g.device v w refl h free (rw same at lease) (rw same at poison) in
              rw e (new, finish-acts g.number r ∙ f, a)
        ]

    prune_next-Adds :
        (g : GhostSlot) (v : World)
        → Unavailable ds g.device
        → Adds (One ds g v) v.machine (prune_next c g v).machine
    prune_next-Adds g v h = elim (Bool-cases (has g.number (numbers v.slots))) [
      | inr e ↦ rw e ([], refl, tt)
      | inl e ↦ rw e (prune_if-Adds (slot_at g.number v.slots).lock g v refl h)
    ]

    prune_each-Adds :
        (gs : List GhostSlot) (w : World)
        → Found ds gs
        → Adds (Prunes ds gs w) w.machine (prune_each c gs w).machine
    unfolding prune_each
    prune_each-Adds [] w h = ([], refl, tt)
    prune_each-Adds (g ∷ gs) w h =
        let w₁ = c.sleep w in
        let v = prune_next c g w₁ in
        let (new, f, a) =
          Adds-trans (Prunes ds (g ∷ gs) w) w₁.machine v.machine (prune_each c gs v).machine
            (Adds-weaken (One ds g w₁) (Prunes ds (g ∷ gs) w) w₁.machine v.machine
              (first_turn g gs w) (prune_next-Adds g w₁ h.0))
            (Adds-weaken (Prunes ds gs v) (Prunes ds (g ∷ gs) w) v.machine
              (prune_each c gs v).machine (later_turn g gs w) (prune_each-Adds gs v h.1)) in
        (new, f ∙ ap (λ acts. new ++ acts) (others w), a)

  -- What the pass over the ghosts that it has found does: outside a dry run, `ds` the listing of
  -- devices, one that succeeded.
  abbrev pub PrunesFound : Option (List GhostSlot) → Bool → World → Act → Type 0
  PrunesFound none dry_run w a = ⊥
  PrunesFound (some gs) dry_run w a =
      (dry_run ≡ false) × ((ds : List Device) × ((os_of w).devices ≡ some ds) × Prunes ds gs w a)

  -- The pass over ghosts does nothing to processes, and to simulators only this: outside a dry run,
  -- at the turn of a ghost that it has found, when the flock of that ghost's slot is free, its
  -- lease.json can be read and has no live lease, and the check finds no previous consumer, it deletes
  -- the simulator that was found for this ghost, which a listing that succeeded shows to be
  -- unavailable, under this slot's own name. This holds where what other processes do is kept apart
  -- from its acts.
  pub prune_ghost_slots-Prunes :
      (runtimes : Option (List Runtime)) (unlisted dry_run : Bool) (w : World)
      → OthersApart c
      → Adds
          (PrunesFound (find_ghosts c runtimes unlisted w) dry_run w)
          w.machine
          (prune_ghost_slots c runtimes unlisted dry_run w).machine
  unfolding prune_ghost_slots
  prune_ghost_slots-Prunes runtimes unlisted dry_run w others =
      by dry_run (find_ghosts c runtimes unlisted w) (find_ghosts-Listed c runtimes unlisted w)
    where
      by :
          (dry_run : Bool) (found : Option (List GhostSlot))
          → Listed c w found
          → Adds (PrunesFound found dry_run w) w.machine (prune_found found c dry_run w).machine
      by dry_run none h = ([], refl, tt)
      by true (some gs) h = ([], refl, tt)
      by false (some gs) (ds, e, h) =
          Adds-weaken (Prunes ds gs w) (PrunesFound (some gs) false w) w.machine
            (prune_each c gs w).machine (λ a p. (refl, (ds, e, p)))
            (prune_each-Adds others ds gs w h)
