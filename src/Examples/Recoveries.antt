-- ===== src/Examples/Recoveries.antt =====
-- The theorems on poisoned slots, names, capabilities and dispatch, applied to the machines of
-- Scene.
use simpool.Common.{ℕ, ◌≡◌, ◌≢◌, ◌⊎◌, true, false, [], some, arith, List}
use simpool.Text.{codes}
use simpool.Poison.{check_poison, check_poison_for, no_declaration}
use simpool.Poison.Verdict.{Means, check_poison-Means}
use simpool.Poison.Recovery.{attempt_recovery_for, disown_poisoned_slot, disowned}
use simpool.Poison.Kills.{
  Adds, Justified, attempt_recovery-Justified, Achieved, attempt_recovery-Achieved,
}
use simpool.Poison.Disowning.{Disowns, disown_poisoned_slot-Disowns, disown_poisoned_slot-meta}
use simpool.Names.{slot_dir_name}
use simpool.Names.Parsing.{slot_number_of, slot_number_of-slot_dir_name}
use simpool.Reclaims.{reclaim_released_residue}
use simpool.Reclaims.Reclaimed.{Outcome, Reclaimable, reclaim_released_residue-Outcome}
use simpool.Poison.{OwnerDeclaration}
use simpool.Examples.Runs.{run_lease}
use simpool.Examples.Scene.{
  haunted, inhabited, kernel, meta_0, meta_with, machine_of, context, key_1, haunted_world,
}

check_poison-Means_example :
    Means haunted meta_0 no_declaration (check_poison_for haunted meta_0 no_declaration)
check_poison-Means_example = check_poison-Means haunted meta_0 no_declaration

attempt_recovery-Justified_example :
    let p = check_poison haunted meta_0 in
    Adds
      (Justified kernel haunted (codes "SIMPOOL_ab_G_slot-0") meta_0 p)
      (machine_of haunted)
      (attempt_recovery_for kernel
        (codes "SIMPOOL_ab_G_slot-0")
        meta_0
        p
        no_declaration
        (machine_of haunted)).machine
attempt_recovery-Justified_example =
    attempt_recovery-Justified kernel (codes "SIMPOOL_ab_G_slot-0") meta_0
      (check_poison haunted meta_0) no_declaration (machine_of haunted)

attempt_recovery-Achieved_example :
    let p = check_poison inhabited meta_with in
    let out =
      attempt_recovery_for kernel
        (codes "SIMPOOL_ab_G_slot-0")
        meta_with
        p
        no_declaration
        (machine_of inhabited) in
    ((out.recovered ≡ true) × Achieved p.reason kernel meta_with p (machine_of inhabited) out)
    ⊎ ((out.recovered ≡ false) × (out.meta ≡ meta_with))
attempt_recovery-Achieved_example =
    attempt_recovery-Achieved kernel (codes "SIMPOOL_ab_G_slot-0") meta_with
      (check_poison inhabited meta_with) no_declaration (machine_of inhabited)

disown_poisoned_slot-Disowns_example :
    let p = check_poison haunted meta_0 in
    Adds
      (Disowns haunted (codes "SIMPOOL_ab_G_slot-0") meta_0 p)
      (machine_of haunted)
      (disown_poisoned_slot kernel (codes "SIMPOOL_ab_G_slot-0") meta_0 p (machine_of haunted)).2
disown_poisoned_slot-Disowns_example =
    disown_poisoned_slot-Disowns kernel (codes "SIMPOOL_ab_G_slot-0") meta_0
      (check_poison haunted meta_0) (machine_of haunted)

disown_poisoned_slot-meta_example :
    let (outcome, m', _) =
      disown_poisoned_slot kernel
        (codes "SIMPOOL_ab_G_slot-0")
        meta_with
        (check_poison inhabited meta_with)
        (machine_of inhabited) in
    ((outcome ≡ disowned) × (m'.udid ≡ [])) ⊎ ((outcome ≢ disowned) × (m' ≡ meta_with))
disown_poisoned_slot-meta_example =
    disown_poisoned_slot-meta kernel (codes "SIMPOOL_ab_G_slot-0") meta_with
      (check_poison inhabited meta_with) (machine_of inhabited)

slot_number_of-slot_dir_name_example : slot_number_of (slot_dir_name 12) ≡ some 12
slot_number_of-slot_dir_name_example = slot_number_of-slot_dir_name 12 (omega arith)

reclaim_released_residue-Outcome_example :
    let d : OwnerDeclaration = record no_declaration { released_key = key_1 } in
    let out = reclaim_released_residue context 0 key_1 haunted_world in
    Outcome 0 d (check_poison_for haunted meta_0 d) haunted_world out
    × ((pids : List ℕ) → out.0 ≡ some pids → Reclaimable 0 key_1 haunted_world)
unfolding run_lease
reclaim_released_residue-Outcome_example =
    reclaim_released_residue-Outcome context 0 key_1 haunted_world
