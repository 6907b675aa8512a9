-- ===== src/Examples/Runs.antt =====
-- The operations with every definition below them unfolded, and runs of them.
use simpool.Common.{ℕ, ◌≡◌, refl, true, false, [], ◌∷◌, none, all, any, keep, has}
use simpool.Common.Sorting.{sort_by, insert_by}
use simpool.Text.{
  text_eq, has_text, has_prefix, has_suffix, contains, is_space, fields_from, fields, Text, codes,
}
use simpool.Meta.{lease_alive, Meta}
use simpool.Procs.{
  alive, pgid_alive, process_start_time, parent_pid, children, walk, descendants, runtime_tree,
  live_consumers, is_binary, udid_flag_is, is_idb_companion_for, is_orphaned_simctl_log_stream_for,
  Os,
}
use simpool.Poison.{
  find_udid, residue_device_offline, residue_slot_long_idle, is_reclaimable_residue, declares,
  all_reclaimable_residue, check_poison_for, check_poison, verify_consumer_identity,
}
use simpool.Poison.Recovery.{
  count, drain, same_pid_set, same_evidence, device_belongs_to_slot, kill_each, kill_and_verify,
  may_reclaim, reclaim_orphaned_residue, recover_group, recover_by, attempt_recovery_for,
  attempt_recovery, may_disown, disown_orphaned_residue, disown_by, disown_poisoned_slot, Recovery,
}
use simpool.Availability.{
  own_lease_residue, availability_of, availability_by, slot_availability_locked, availability_if,
  slot_availability, Availability, SlotDir, slot_free, slot_quarantined,
}
use simpool.Names.{slot_dir_name, device_name_for_group, is_pool_name}
use simpool.Names.Decimal.{itoa, is_digit, digits_value}
use simpool.Slim.{
  text_lt, satisfies, surplus_categories, dedupe, dedupe_sorted, effective_categories,
  lookup_capability, resolve_capabilities, requested_categories,
}
use simpool.Group.{
  slot_at, put_slot, shutdown_in_progress, use_of, census_in_use, claim_slot_lock_capped,
  claim_slot_lock, unlock, World,
}
use simpool.Dispatch.{serves, leaner, staler, dispatch_order, fresh_from, fresh_number}
use simpool.Claims.{
  recover_slot, write_lease, decide_lease, after_claim, claim_slot_for_lease, LeaseClaim,
  lease_taken,
}
use simpool.Leases.{
  pass_of, claim, claim_each, wait_marker, claim_again, wait_out_idle_shutdown, wait_each,
  claim_new, is_own, sticky_slot, fresh_lease, acquire_lease, release_one, release_lease,
  cleanup_expired_lease, LeaseResult, leased,
}
use simpool.Acquire.{
  record_refusal, decide_take, after_take, take, done, take_each, take_new, refusal_of, fallbacks,
  cold_boot_floor, release_slot, release_all, finish, declines, passes_after, after_first,
  try_acquire_slots, AcquireResult, acquired,
}
use simpool.Examples.Scene.{
  minute, haunted, inhabited, kernel, meta_0, meta_with, world, haunted_world, context, key_1,
  key_2, slot_0, machine_of,
}

unfoldable pub run_look : Os → SlotDir → Text → Availability
unfolding all any keep has text_eq has_text has_prefix has_suffix contains is_space fields_from
    fields lease_alive alive pgid_alive process_start_time parent_pid children walk descendants
    runtime_tree live_consumers is_binary udid_flag_is is_idb_companion_for
    is_orphaned_simctl_log_stream_for find_udid residue_device_offline residue_slot_long_idle
    is_reclaimable_residue declares all_reclaimable_residue check_poison_for check_poison
    verify_consumer_identity own_lease_residue availability_of availability_by
    slot_availability_locked availability_if slot_availability
run_look os d key = slot_availability os d key

unfoldable pub run_recovery : Os → Meta → Recovery
unfolding run_look count drain same_pid_set same_evidence device_belongs_to_slot kill_each
    kill_and_verify may_reclaim reclaim_orphaned_residue recover_group recover_by
    attempt_recovery_for attempt_recovery may_disown disown_orphaned_residue disown_by
    disown_poisoned_slot slot_dir_name device_name_for_group is_pool_name itoa is_digit digits_value
run_recovery os m =
    attempt_recovery kernel (device_name_for_group (codes "ab") (codes "G") 0) m (check_poison os m)
      (machine_of os)

unfoldable pub run_claim : ℕ → Text → World → LeaseClaim × World
unfolding run_recovery slot_at put_slot shutdown_in_progress use_of census_in_use
    claim_slot_lock_capped claim_slot_lock unlock recover_slot write_lease decide_lease after_claim
    claim_slot_for_lease
run_claim n key w = claim_slot_for_lease context n key minute 4 w

unfoldable pub run_lease : Text → World → LeaseResult × World
unfolding run_claim sort_by insert_by text_lt satisfies surplus_categories dedupe dedupe_sorted
    effective_categories lookup_capability resolve_capabilities requested_categories serves leaner
    staler dispatch_order fresh_from fresh_number pass_of claim claim_each wait_marker claim_again
    wait_out_idle_shutdown wait_each claim_new is_own sticky_slot fresh_lease acquire_lease
    release_one release_lease cleanup_expired_lease
run_lease key w = acquire_lease context key minute 4 w

unfoldable pub run_acquire : ℕ → World → AcquireResult × World
unfolding run_claim sort_by insert_by text_lt satisfies surplus_categories dedupe dedupe_sorted
    effective_categories lookup_capability resolve_capabilities requested_categories serves leaner
    staler dispatch_order fresh_from fresh_number record_refusal decide_take after_take take done
    take_each take_new refusal_of fallbacks cold_boot_floor release_slot release_all finish declines
    passes_after after_first try_acquire_slots
run_acquire count w = try_acquire_slots context none 35 count 4 w

companion_is_residue : (check_poison haunted meta_0).residue_pids ≡ 7 ∷ []
unfolding run_look
companion_is_residue = refl

own_key_may_return : (run_look haunted slot_0 key_1).state ≡ slot_free
unfolding run_look
own_key_may_return = refl

other_key_may_not : (run_look haunted slot_0 key_2).state ≡ slot_quarantined
unfolding run_look
other_key_may_not = refl

companion_is_killed : (run_recovery haunted meta_0).recovered ≡ true
unfolding run_recovery
companion_is_killed = refl

group_is_killed : (run_recovery inhabited meta_with).meta.consumer_pgid ≡ 0
unfolding run_recovery
group_is_killed = refl

other_key_claims_after_recovery : (run_claim 0 key_2 haunted_world).0 ≡ lease_taken
unfolding run_claim
other_key_claims_after_recovery = refl

own_lease_is_renewed : (run_lease key_1 world).0 ≡ leased 3 true
unfolding run_lease
own_lease_is_renewed = refl

new_lease : (run_lease key_2 world).0 ≡ leased 5 false
unfolding run_lease
new_lease = refl

two_slots : (run_acquire 2 world).0 ≡ acquired (5 ∷ 0 ∷ [])
unfolding run_acquire
two_slots = refl
