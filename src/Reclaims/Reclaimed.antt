-- ===== src/Reclaims/Reclaimed.antt =====
-- What a session that ends has reclaimed.
use simpool.Common.{
  ℕ, ◌≡◌, refl, ◌≢◌, ◌⊎◌, inl, inr, true, false, not, ◌||◌, List, [], Option, none, some, arith,
  has, all, All, Bool-cases,
}
use simpool.Text.{Text, is_empty}
use simpool.Procs.{live_consumers}
use simpool.Poison.{
  Poison, PoisonReason, OwnerDeclaration, not_poisoned, by_consumer_pgid, by_live_consumers,
  by_check_failure, by_orphaned_residue, no_declaration, check_poison_for, is_reclaimable_residue,
}
use simpool.Poison.Verdict.{Evidence, Means, check_poison-Means}
use simpool.Poison.Recovery.{Recovery, attempt_recovery_for}
use simpool.Poison.Kills.{Unreached, Achieved, attempt_recovery-Achieved}
use simpool.Names.{device_name_for_group}
use simpool.Group.{World, os_of, numbers, slot_at}
use simpool.Claims.{Context, is_residue}
use simpool.Reclaims.{
  reclaimed_by, reclaim_residue, reclaim_released_residue, reclaim_own_residue, free_of_lease,
  free_to_lock,
}

-- What stands behind a reclaim that returns `pids`: they were all the processes that referred to
-- the device, each of a disposable class, with evidence that they serve nobody; and signal 0 is
-- delivered to none of them any longer.
abbrev pub Reclaimed : ℕ → OwnerDeclaration → Poison → World → World → List ℕ → Type 0
Reclaimed n d p w w' pids =
    let m = (slot_at n w.slots).meta in
    (live_consumers (os_of w) m.udid ≡ some pids)
    × (all (is_reclaimable_residue (os_of w) m.udid) pids ≡ true)
    × Evidence (os_of w) m d p.residue_evidence
    × All (Unreached (os_of w')) pids

-- What a reclaim does: the slots stay as they are, and a success is as `Reclaimed` says.
abbrev pub Outcome : ℕ → OwnerDeclaration → Poison → World → Option (List ℕ) × World → Type 0
Outcome n d p w out =
    (out.1.slots ≡ w.slots) × ((pids : List ℕ) → out.0 ≡ some pids → Reclaimed n d p w out.1 pids)

refusal-Outcome :
    (n : ℕ) (d : OwnerDeclaration) (p : Poison) (w : World) → Outcome n d p w (none, w)
refusal-Outcome n d p w = (refl, λ pids h. cc)

residue_reason : (r : PoisonReason) → is_residue r ≡ true → r ≡ by_orphaned_residue
residue_reason by_orphaned_residue h = refl
residue_reason not_poisoned h = cc
residue_reason by_consumer_pgid h = cc
residue_reason by_live_consumers h = cc
residue_reason by_check_failure h = cc

module _ (c : Context) (n : ℕ) (d : OwnerDeclaration) (w : World) where
  recovered-Reclaimed :
      (p : Poison) (r : Recovery)
      → p.reason ≡ by_orphaned_residue
      → Means (os_of w) (slot_at n w.slots).meta d p
      → (((r.recovered ≡ true) × Achieved p.reason c.kernel (slot_at n w.slots).meta p w.machine r)
          ⊎ ((r.recovered ≡ false) × (r.meta ≡ (slot_at n w.slots).meta)))
      → Outcome n d p w (reclaimed_by p r w)
  recovered-Reclaimed p r e means (inl (done, achieved)) =
      let a : All (Unreached r.machine.os) p.residue_pids = (rw e at achieved).0 in
      let f : (live_consumers (os_of w) (slot_at n w.slots).meta.udid ≡ some p.residue_pids)
          × (all (is_reclaimable_residue (os_of w) (slot_at n w.slots).meta.udid) p.residue_pids
              ≡ true)
          × Evidence (os_of w) (slot_at n w.slots).meta d p.residue_evidence =
        rw e at means in
      (
        refl,
        λ pids h. let same : pids ≡ p.residue_pids = ground arith in rw same (f.0, f.1, f.2, a),
      )
  recovered-Reclaimed p r e means (inr (failed, same)) = (refl, λ pids h. ground arith)

  pub reclaim_residue-Outcome :
      Outcome n d
        (check_poison_for (os_of w) (slot_at n w.slots).meta d)
        w
        (reclaim_residue c n d w)
  unfolding reclaim_residue
  reclaim_residue-Outcome =
      let m = (slot_at n w.slots).meta in
      let p = check_poison_for (os_of w) m d in
      let name = device_name_for_group c.root_tag c.group n in
      elim (Bool-cases (is_residue p.reason)) [
        | inl e ↦
            rw (e, reclaim_residue)
              (recovered-Reclaimed p (attempt_recovery_for c.kernel name m p d w.machine)
                (residue_reason p.reason e) (check_poison-Means (os_of w) m d)
                (attempt_recovery-Achieved c.kernel name m p d w.machine))
        | inr e ↦ rw (e, reclaim_residue) (refusal-Outcome n d p w)
      ]

-- When a released key's residue may be looked at.
abbrev pub Reclaimable : ℕ → Text → World → Type 0
Reclaimable n key w =
    (key ≢ [])
    × (has n (numbers w.slots) ≡ true)
    × (free_to_lock (slot_at n w.slots).lock ≡ true)
    × (free_of_lease (os_of w).now (slot_at n w.slots).lease_file ≡ true)

-- Reclaiming for a released key leaves every slot directory as it is. If it reports processes as
-- reclaimed, the key is not empty, the slot is there, with its flock free and no live or unreadable
-- lease; the processes were all those that referred to the slot's device, of disposable classes,
-- with the device not running, the slot idle beyond the grace, or this key the one that the slot
-- records in `lease` mode; and signal 0 is delivered to none of them any longer: there is none of
-- the pid, or the one there is not ours to signal (EPERM, which the code takes for dead).
pub reclaim_released_residue-Outcome :
    (c : Context) (n : ℕ) (key : Text) (w : World)
    → let d : OwnerDeclaration = record no_declaration { released_key = key } in
      let out = reclaim_released_residue c n key w in
      Outcome n d (check_poison_for (os_of w) (slot_at n w.slots).meta d) w out
      × ((pids : List ℕ) → out.0 ≡ some pids → Reclaimable n key w)
unfolding reclaim_released_residue
reclaim_released_residue-Outcome c n key w =
    let d : OwnerDeclaration = record no_declaration { released_key = key } in
    let s = slot_at n w.slots in
    elim (Bool-cases (
      is_empty key
      || not (has n (numbers w.slots))
      || not (free_to_lock s.lock)
      || not (free_of_lease (os_of w).now s.lease_file))) [
        | inl e ↦
            rw (e, reclaim_released_residue)
              (refusal-Outcome n d (check_poison_for (os_of w) s.meta d) w, λ pids h. cc)
        | inr e ↦
            rw (e, reclaim_released_residue)
              (
                reclaim_residue-Outcome c n d w,
                λ pids h. (λ k. ground (arith, k), ground arith, ground arith, ground arith),
              )
      ]

-- Reclaiming by the process that still holds the slot leaves every slot directory as it is. If it
-- reports processes as reclaimed, they were all those that referred to the slot's device, of
-- disposable classes, with the device not running, the slot idle beyond the grace, or the process
-- the owner that the slot records in `with` or `acquire` mode; and signal 0 is delivered to none of
-- them any longer.
reclaim_own_residue-Outcome :
    (c : Context) (n : ℕ) (udid : Text) (pid : ℕ) (w : World)
    → let d : OwnerDeclaration = record no_declaration { finishing_pid = pid } in
      Outcome n d
        (check_poison_for (os_of w) (slot_at n w.slots).meta d)
        w
        (reclaim_own_residue c n udid pid w)
unfolding reclaim_own_residue
reclaim_own_residue-Outcome c n udid pid w =
    let d : OwnerDeclaration = record no_declaration { finishing_pid = pid } in
    elim (Bool-cases (is_empty udid)) [
      | inl e ↦
          rw (e, reclaim_own_residue)
            (refusal-Outcome n d (check_poison_for (os_of w) (slot_at n w.slots).meta d) w)
      | inr e ↦ rw (e, reclaim_own_residue) (reclaim_residue-Outcome c n d w)
    ]
