-- ===== src/Poison/Recovery.antt =====
-- internal/pool/poison.go: reclaiming a quarantined slot. What a signal, a shutdown or the wait
-- after a kill does to the machine is the kernel's and CoreSimulator's, a parameter. What the
-- code does to processes and devices is recorded, oldest last.
use simpool.Common.{
  ℕ, suc, ◌-◌, Bool, true, false, not, ◌&&◌, List, [], ◌∷◌, Option, none, some, ◌==◌, if◌then◌else◌,
  all, any, length,
}
use simpool.Text.{Text, text_eq, is_empty}
use simpool.Meta.{Meta, with_mode}
use simpool.Procs.{Os, Device, alive, pgid_alive, live_consumers}
use simpool.Poison.{
  Poison, PoisonReason, ResidueEvidence, OwnerDeclaration, by_consumer_pgid, by_orphaned_residue,
  no_evidence, target_not_running, slot_long_idle, owner_released, no_declaration, find_udid,
  residue_device_offline, is_reclaimable_residue, all_reclaimable_residue, verify_consumer_identity,
  residue_disownable,
}

-- What the pool does to the machine.
pub data Act : Type 0 where
  killed_group : ℕ → Act
  killed : ℕ → Act
  shut_down : Text → Act
  deleted : Text → Act
  booted : Text → Act
  scrubbed : Text → Act

-- The machine's answers: what it looks like after a signal, after the shutdown, deletion, boot or
-- cleanup of a device, or after the wait of `recoveryPostKillWait`. The Boolean is false where the
-- call returns an error.
pub record Kernel : Type 0 where
  pub kill_group : ℕ → Os → Bool × Os
  pub kill : ℕ → Os → Os
  pub wait : Os → Os
  pub shutdown : Text → Os → Bool × Os
  pub delete : Text → Os → Bool × Os
  pub boot : Text → Os → Bool × Os
  pub scrub : Text → Os → Os

pub record Machine : Type 0 where
  pub os : Os
  pub acts : List Act

-- samePIDSet. `seen` is the map of counts.
unfoldable pub count : ℕ → List ℕ → ℕ
count n [] = 0
count n (x ∷ xs) = let rest = count n xs in if x == n then suc rest else rest

abbrev pub lower : (ℕ → ℕ) → ℕ → ℕ → ℕ
lower seen p q = if q == p then seen q - 1 else seen q

unfoldable pub drain : (ℕ → ℕ) → List ℕ → Bool
drain seen [] = true
drain seen (p ∷ ps) = not (seen p == 0) && drain (lower seen p) ps

unfoldable pub same_pid_set : List ℕ → List ℕ → Bool
same_pid_set a b = length a == length b && drain (λ p. count p a) b

unfoldable pub same_evidence : ResidueEvidence → ResidueEvidence → Bool
same_evidence no_evidence no_evidence = true
same_evidence target_not_running target_not_running = true
same_evidence slot_long_idle slot_long_idle = true
same_evidence owner_released owner_released = true
same_evidence _ _ = false

abbrev pub named : Text → Option Device → Bool
named expected none = false
named expected (some d) = text_eq d.name expected

abbrev pub found_named : Text → Text → Option (List Device) → Bool
found_named udid expected none = false
found_named udid expected (some ds) = named expected (find_udid udid ds)

-- deviceBelongsToSlot; `expected` is DeviceNameForGroup(root, groupName, n).
unfoldable pub device_belongs_to_slot : Os → Text → Text → Bool
device_belongs_to_slot os udid expected = found_named udid expected os.devices

-- The loop that signals each pid, whether or not an earlier one failed.
unfoldable pub kill_each : Kernel → List ℕ → Machine → Machine
kill_each k [] w = w
kill_each k (p ∷ ps) w = kill_each k ps (record { os = k.kill p w.os; acts = killed p ∷ w.acts })

-- Kill, wait, and see that Alive is false of every one.
unfoldable pub kill_and_verify : Kernel → List ℕ → Machine → Bool × Machine
kill_and_verify k pids w =
    let w' = kill_each k pids w in
    let os' = k.wait w'.os in (not (any (alive os') pids), record w' { os = os' })

abbrev pub still_holds : Os → Meta → Poison → OwnerDeclaration → Option (List ℕ) → Bool
still_holds os m p d none = false
still_holds os m p d (some live) = elim (all_reclaimable_residue os m live d) [
  | none ↦ false
  | some e ↦ same_evidence e p.residue_evidence && same_pid_set live p.residue_pids
]

abbrev pub is_nil : List ℕ → Bool
is_nil [] = true
is_nil (x ∷ xs) = false

-- The tests of reclaimOrphanedResidue before it kills anything.
unfoldable pub may_reclaim : Os → Text → Meta → Poison → OwnerDeclaration → Bool
may_reclaim os expected m p d =
    not (is_nil p.residue_pids)
    && not (is_empty m.udid)
    && device_belongs_to_slot os m.udid expected
    && still_holds os m p d (live_consumers os m.udid)

-- reclaimOrphanedResidue
unfoldable pub reclaim_orphaned_residue :
    Kernel → Text → Meta → Poison → OwnerDeclaration → Machine → Bool × Machine
reclaim_orphaned_residue k expected m p d w =
    if may_reclaim w.os expected m p d then kill_and_verify k p.residue_pids w else (false, w)

pub record Recovery : Type 0 where
  pub recovered : Bool
  pub meta : Meta
  pub machine : Machine

abbrev pub shut_own_device : Kernel → Text → Meta → Machine → Machine
shut_own_device k expected m w =
    if not (is_empty m.udid) && device_belongs_to_slot w.os m.udid expected
    then record { os = (k.shutdown m.udid w.os).1; acts = shut_down m.udid ∷ w.acts }
    else w

-- The branch of attemptRecovery for a `with` consumer whose identity is verified.
unfoldable pub recover_group : Kernel → Text → Meta → ℕ → Machine → Recovery
recover_group k expected m pgid w =
    let (sent, os₁) = k.kill_group pgid w.os in
    let w₁ = record w { os = os₁; acts = killed_group pgid ∷ w.acts } in
    let w₂ = record w₁ { os = k.wait os₁ } in
    if not sent
    then record { recovered = false; meta = m; machine = w₁ }
    else if pgid_alive w₂.os pgid
    then record { recovered = false; meta = m; machine = w₂ }
    else record {
      recovered = true;
      meta = record m { consumer_pgid = 0; consumer_started_at = [] };
      machine = shut_own_device k expected m w₂;
    }

-- The branches of attemptRecovery, by the reason of the verdict.
unfoldable pub recover_by :
    PoisonReason → Kernel → Text → Meta → Poison → OwnerDeclaration → Machine → Recovery
recover_by by_orphaned_residue k expected m p d w =
    let (done, w') = reclaim_orphaned_residue k expected m p d w in
    record { recovered = done; meta = m; machine = w' }
recover_by by_consumer_pgid k expected m p d w =
    if text_eq m.mode with_mode && verify_consumer_identity w.os m
    then recover_group k expected m p.pgid w
    else record { recovered = false; meta = m; machine = w }
recover_by _ k expected m p d w = record { recovered = false; meta = m; machine = w }

-- attemptRecovery. On success the caller's meta is also what meta.json holds.
unfoldable pub attempt_recovery_for :
    Kernel → Text → Meta → Poison → OwnerDeclaration → Machine → Recovery
attempt_recovery_for k expected m p d w = recover_by p.reason k expected m p d w

-- AttemptRecovery
unfoldable pub attempt_recovery : Kernel → Text → Meta → Poison → Machine → Recovery
attempt_recovery k expected m p w = attempt_recovery_for k expected m p no_declaration w

pub data Disowned : Type 0 where
  disowned not_disownable still_alive : Disowned

-- The tests of disownOrphanedResidue: the device is not asked for its name, and is asked again
-- whether it runs.
unfoldable pub may_disown : Os → Meta → Poison → Bool
may_disown os m p =
    not (is_nil p.residue_pids)
    && not (is_empty m.udid)
    && residue_disownable p
    && residue_device_offline os m.udid
    && all (is_reclaimable_residue os m.udid) p.residue_pids

-- disownOrphanedResidue: the outcome, meta.json afterwards, and the machine.
unfoldable pub disown_orphaned_residue :
    Kernel → Meta → Poison → Machine → Disowned × Meta × Machine
disown_orphaned_residue k m p w =
    if may_disown w.os m p
    then (let (gone, w') = kill_and_verify k p.residue_pids w in
        if gone then (disowned, record m { udid = [] }, w') else (still_alive, m, w'))
    else (not_disownable, m, w)

abbrev pub delete_own_device : Kernel → Text → Meta → Machine → Machine
delete_own_device k expected m w =
    if not (is_empty m.udid) && device_belongs_to_slot w.os m.udid expected
    then record {
      os = (k.delete m.udid (k.shutdown m.udid w.os).1).1;
      acts = deleted m.udid ∷ shut_down m.udid ∷ w.acts;
    }
    else w

-- The branches of DisownPoisonedSlot, by the reason of the verdict.
unfoldable pub disown_by :
    PoisonReason → Kernel → Text → Meta → Poison → Machine → Disowned × Meta × Machine
disown_by by_orphaned_residue k expected m p w = disown_orphaned_residue k m p w
disown_by by_consumer_pgid k expected m p w =
    if text_eq m.mode with_mode
    then (
      disowned,
      record m { udid = []; consumer_pgid = 0; consumer_started_at = []; mode = [] },
      delete_own_device k expected m w,
    )
    else (not_disownable, m, w)
disown_by _ k expected m p w = (not_disownable, m, w)

-- DisownPoisonedSlot
unfoldable pub disown_poisoned_slot :
    Kernel → Text → Meta → Poison → Machine → Disowned × Meta × Machine
disown_poisoned_slot k expected m p w = disown_by p.reason k expected m p w
