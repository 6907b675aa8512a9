-- ===== src/Poison/Verdict.antt =====
-- What a verdict of CheckPoison means.
use simpool.Common.{
  ℕ, ◌+◌, ◌≤◌, ◌≡◌, refl, ◌≢◌, ◌⊎◌, inl, inr, true, false, List, [], ◌∷◌, none, some, arith, all,
  Option, not, ◌&&◌, ◌==◌, Bool-cases,
}
use simpool.Text.{is_empty, is_empty→nil}
use simpool.Meta.{Meta}
use simpool.Procs.{Os, pgid_alive, live_consumers}
use simpool.Poison.{
  Poison, OwnerDeclaration, ResidueEvidence, not_poisoned, by_consumer_pgid, by_live_consumers,
  by_check_failure, by_orphaned_residue, no_evidence, target_not_running, slot_long_idle,
  owner_released, residue_idle_grace, residue_device_offline, residue_slot_long_idle,
  is_reclaimable_residue, declares, all_reclaimable_residue, check_poison, check_poison_for,
  residue_verdict, live_verdict,
}

-- What each kind of evidence stands for.
abbrev pub Evidence : Os → Meta → OwnerDeclaration → ResidueEvidence → Type 0
Evidence os m d no_evidence = ⊥
Evidence os m d target_not_running = residue_device_offline os m.udid ≡ true
Evidence os m d slot_long_idle = (m.last_used ≢ 0) × (m.last_used + residue_idle_grace ≤ os.now)
Evidence os m d owner_released = declares d m ≡ true

-- What each reason stands for.
abbrev pub Means : Os → Meta → OwnerDeclaration → Poison → Type 0
Means os m d p = elim p.reason [
  | not_poisoned ↦
      (m.udid ≡ [])
      ⊎ ((pgid_alive os m.consumer_pgid ≡ false) × (live_consumers os m.udid ≡ some []))
  | by_consumer_pgid ↦ (p.pgid ≡ m.consumer_pgid) × (pgid_alive os m.consumer_pgid ≡ true)
  | by_live_consumers ↦
      (q : ℕ) × (qs : List ℕ) × (live_consumers os m.udid ≡ some (q ∷ qs))
      × (all_reclaimable_residue os m (q ∷ qs) d ≡ none)
  | by_check_failure ↦ live_consumers os m.udid ≡ none
  | by_orphaned_residue ↦
      (live_consumers os m.udid ≡ some p.residue_pids)
      × (all (is_reclaimable_residue os m.udid) p.residue_pids ≡ true)
      × Evidence os m d p.residue_evidence
]

pub all_reclaimable_residue-Evidence :
    (os : Os) (m : Meta) (live : List ℕ) (d : OwnerDeclaration) {e : ResidueEvidence}
    → all_reclaimable_residue os m live d ≡ some e
    → (all (is_reclaimable_residue os m.udid) live ≡ true) × Evidence os m d e
unfolding all_reclaimable_residue residue_slot_long_idle
all_reclaimable_residue-Evidence os m [] d h = cc
all_reclaimable_residue-Evidence os m (p ∷ ps) d h = ground arith

group_dead :
    (os : Os) (m : Meta)
    → (not (m.consumer_pgid == 0) && pgid_alive os m.consumer_pgid) ≡ false
    → pgid_alive os m.consumer_pgid ≡ false
unfolding pgid_alive
group_dead os m h = ground arith

residue_verdict-Means :
    (os : Os) (m : Meta) (d : OwnerDeclaration) (q : ℕ) (qs : List ℕ) (v : Option ResidueEvidence)
    → live_consumers os m.udid ≡ some (q ∷ qs)
    → all_reclaimable_residue os m (q ∷ qs) d ≡ v
    → Means os m d (residue_verdict (q ∷ qs) d v)
residue_verdict-Means os m d q qs none l e = (q, qs, l, e)
residue_verdict-Means os m d q qs (some v) l e =
    let sound = all_reclaimable_residue-Evidence os m (q ∷ qs) d e in (l, sound.0, sound.1)

live_verdict-Means :
    (os : Os) (m : Meta) (d : OwnerDeclaration) (live : Option (List ℕ))
    → pgid_alive os m.consumer_pgid ≡ false
    → live_consumers os m.udid ≡ live
    → Means os m d (live_verdict os m d live)
live_verdict-Means os m d none dead l = l
live_verdict-Means os m d (some []) dead l = inr (dead, l)
live_verdict-Means os m d (some (q ∷ qs)) dead l = residue_verdict-Means os m d q qs _ l refl

-- The verdict on a slot is the evidence that its reason names: it is clean only if the slot has
-- no device, or its process group is gone and no process refers to its device; and it calls
-- processes residue only if every process that refers to the device is of a disposable class and
-- the device is not running, the slot idle beyond the grace, or its own session declared over.
pub check_poison-Means :
    (os : Os) (m : Meta) (d : OwnerDeclaration) → Means os m d (check_poison_for os m d)
unfolding check_poison_for
check_poison-Means os m d = elim (Bool-cases (is_empty m.udid)) [
  | inl e ↦ rw e (inl (is_empty→nil m.udid e))
  | inr e ↦ rw e (elim (Bool-cases (not (m.consumer_pgid == 0) && pgid_alive os m.consumer_pgid)) [
    | inl g ↦ rw g (refl, ground arith)
    | inr g ↦ rw g (live_verdict-Means os m d _ (group_dead os m g) refl)
  ])
]

-- An observer, who declares nothing, never concludes that an owner released the slot.
observer-ne-owner_released :
    (os : Os) (m : Meta) → (check_poison os m).residue_evidence ≢ owner_released
unfolding check_poison check_poison_for all_reclaimable_residue declares
observer-ne-owner_released os m h = ground arith
