-- ===== src/Examples/Cap.antt =====
-- The pass that enforces the cap, on the group of Scene.
use simpool.Common.{ℕ, ◌≤◌, ◌≡◌, refl, false, [], ◌∷◌, none, some}
use simpool.Text.{codes}
use simpool.Availability.{SlotDir}
use simpool.Group.{World, numbers}
use simpool.SlotCap.{
  classify_cap_slot, enforce_slot_cap, drop, drop_slot, remove_slot_dir_above, delete_device,
  classify, candidates, evict, evict_each,
}
use simpool.SlotCap.Evictable.{Evictable, classify_cap_slot-Evictable}
use simpool.SlotCap.Floor.{size_of, enforce_slot_cap_keeps_max}
use simpool.Examples.Runs.{run_acquire}
use simpool.Examples.Scene.{quiet, meta_0, slot_0, world, context}

abbrev idle_slot : SlotDir
idle_slot = record slot_0 { meta = record meta_0 { last_used = 1 } }

unfoldable run_cap : ℕ → World → World
unfolding run_acquire enforce_slot_cap drop drop_slot remove_slot_dir_above delete_device classify
    classify_cap_slot candidates evict evict_each
run_cap max w = enforce_slot_cap context (λ w. false) (λ n. some 1) max w

-- Slot 5 goes: slot 0 was used a minute ago, slot 1 is held and slot 3 leased.
cap_removes_5 : numbers (run_cap 2 world).slots ≡ 0 ∷ 1 ∷ 3 ∷ []
unfolding run_cap
cap_removes_5 = refl

classify_cap_slot-Evictable_example :
    let x = classify_cap_slot (codes "SIMPOOL_ab_G_slot-0") 0 idle_slot none quiet in
    Evictable (codes "SIMPOOL_ab_G_slot-0") idle_slot none quiet x
unfolding run_cap
classify_cap_slot-Evictable_example =
    classify_cap_slot-Evictable (codes "SIMPOOL_ab_G_slot-0") 0 idle_slot none quiet refl

enforce_slot_cap_keeps_max_example :
    (2 ≤ size_of world → 2 ≤ size_of (enforce_slot_cap context (λ w. false) (λ n. some 1) 2 world))
    × (size_of world ≤ 2 → enforce_slot_cap context (λ w. false) (λ n. some 1) 2 world ≡ world)
enforce_slot_cap_keeps_max_example =
    enforce_slot_cap_keeps_max context (λ w. false) (λ n. some 1) 2 (λ w h. h) world
