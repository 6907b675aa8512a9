-- ===== src/SlotCap/Evictable.antt =====
-- Which slots the pass that enforces the cap may delete.
use simpool.Common.{
  ℕ, ◌+◌, ◌≤◌, ◌≡◌, refl, ◌⊎◌, inl, inr, true, false, not, List, [], ◌∷◌, Option, none, some, arith,
  keep, Bool-cases,
}
use simpool.Text.{Text, text_eq, text_eq_iff, is_empty}
use simpool.Meta.{Meta}
use simpool.Procs.{Os, Device, pgid_alive, live_consumers}
use simpool.Poison.{poisoned, not_poisoned, no_declaration, check_poison, find_udid}
use simpool.Poison.Verdict.{check_poison-Means}
use simpool.Availability.{SlotDir}
use simpool.Reclaims.{free_of_lease}
use simpool.SlotCap.{
  CapCandidate, slot_cap_grace, idle_since, within_grace, by_matches, by_name, by_entry, by_udid,
  classify_cap_slot,
}

-- The device that would be deleted bears the slot's name.
abbrev pub Own : Text → Option Device → Type 0
Own want none = Unit {0}
Own want (some d) = d.name ≡ want

-- What the check of the slot's processes has shown: none is left of the simulator that meta.json
-- names; and if it names none, nothing, since no process is then looked for.
abbrev pub Quiet : Os → Meta → Type 0
Quiet os m =
    (m.udid ≡ []) ⊎ ((pgid_alive os m.consumer_pgid ≡ false) × (live_consumers os m.udid ≡ some []))

-- What stands behind a slot that may be deleted.
abbrev pub Evictable : Text → SlotDir → Option ℕ → Os → CapCandidate → Type 0
Evictable want d mtime os x =
    (free_of_lease os.now d.lease_file ≡ true)
    × ((check_poison os d.meta).reason ≡ not_poisoned)
    × Quiet os d.meta
    × ((since : ℕ) × (idle_since d.meta mtime ≡ some since) × (since + slot_cap_grace ≤ os.now))
    × Own want x.device

pub keep_head-name :
    (want : Text) (ds : List Device) (d : Device) (rest : List Device)
    → keep (λ e. text_eq e.name want) ds ≡ d ∷ rest
    → d.name ≡ want
unfolding keep
keep_head-name want [] d rest h = cc
keep_head-name want (e ∷ ds) d rest h = elim (Bool-cases (text_eq e.name want)) [
  | inl t ↦ ground (arith, text_eq_iff e.name want)
  | inr t ↦ keep_head-name want ds d rest (ground arith)
]

by_matches-Own :
    (n : ℕ) (m : Meta) (want : Text) (ms : List Device)
    → ((d : Device) (rest : List Device) → ms ≡ d ∷ rest → d.name ≡ want)
    → (by_matches n m ms).blocked ≡ false
    → Own want (by_matches n m ms).device
by_matches-Own n m want [] f h = tt
by_matches-Own n m want (d ∷ []) f h = f d [] refl
by_matches-Own n m want (d ∷ e ∷ ds) f h = tt

by_name-Own :
    (n : ℕ) (m : Meta) (want : Text) (ds : Option (List Device))
    → (by_name n m want ds).blocked ≡ false
    → Own want (by_name n m want ds).device
by_name-Own n m want none h = tt
by_name-Own n m want (some ds) h =
    by_matches-Own n m want (keep (λ e. text_eq e.name want) ds) (keep_head-name want ds) h

by_entry-Own :
    (n : ℕ) (m : Meta) (want : Text) (d : Option Device) → Own want (by_entry n m want d).device
by_entry-Own n m want none = tt
by_entry-Own n m want (some d) = elim (Bool-cases (text_eq d.name want)) [
  | inl e ↦ rw e ((text_eq_iff d.name want).0 e)
  | inr e ↦ rw e tt
]

by_udid-Own :
    (n : ℕ) (m : Meta) (want : Text) (ds : Option (List Device))
    → Own want (by_udid n m want ds).device
by_udid-Own n m want none = tt
by_udid-Own n m want (some ds) = by_entry-Own n m want (find_udid m.udid ds)

grace_over :
    (now : ℕ) (since : Option ℕ)
    → within_grace now since ≡ false
    → (t : ℕ) × (since ≡ some t) × (t + slot_cap_grace ≤ now)
grace_over now none h = cc
grace_over now (some t) h = (t, refl, ground arith)

clean-Quiet : (os : Os) (m : Meta) → (check_poison os m).reason ≡ not_poisoned → Quiet os m
unfolding check_poison
clean-Quiet os m h = rw h at (check_poison-Means os m no_declaration)

-- A slot that the pass may delete has no live lease and a lease.json that can be read, a clean
-- verdict, and has been idle for the grace on a clock that is known; and the device that would be
-- deleted with it, if any, bears the slot's name. If meta.json names a simulator, the check of its
-- processes has completed: its consumer's process group is gone and no process refers to the
-- simulator. If meta.json names none, no process is looked for, neither here nor for the simulator
-- that is then found by the slot's name and may be deleted.
pub classify_cap_slot-Evictable :
    (want : Text) (n : ℕ) (d : SlotDir) (mtime : Option ℕ) (os : Os)
    → (classify_cap_slot want n d mtime os).blocked ≡ false
    → Evictable want d mtime os (classify_cap_slot want n d mtime os)
unfolding classify_cap_slot
classify_cap_slot-Evictable want n d mtime os h =
    let lease = free_of_lease os.now d.lease_file in
    elim (Bool-cases (not lease)) [
      | inl e ↦ cc
      | inr e ↦ elim (Bool-cases (poisoned (check_poison os d.meta).reason)) [
        | inl p ↦ cc (rw (e, p, classify_cap_slot) at h)
        | inr p ↦ elim (Bool-cases (within_grace os.now (idle_since d.meta mtime))) [
          | inl g ↦ cc (rw (e, p, g, classify_cap_slot) at h)
          | inr g ↦
              let idle = grace_over os.now (idle_since d.meta mtime) g in
              let clean : (check_poison os d.meta).reason ≡ not_poisoned = ground arith in
              let quiet = clean-Quiet os d.meta clean in
              elim (Bool-cases (is_empty d.meta.udid)) [
                | inl u ↦
                    let k = rw (e, p, g, u, classify_cap_slot) at h in
                    rw (e, p, g, u, classify_cap_slot)
                      (ground arith, clean, quiet, idle, by_name-Own n d.meta want os.devices k)
                | inr u ↦
                    rw (e, p, g, u, classify_cap_slot)
                      (ground arith, clean, quiet, idle, by_udid-Own n d.meta want os.devices)
              ]
        ]
      ]
    ]
