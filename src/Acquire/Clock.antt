-- ===== src/Acquire/Clock.antt =====
-- An attempt does not set the clock back, if the kernel's answers do not.
use simpool.Common.{
  ℕ, zero, suc, ◌+◌, ◌-◌, ◌≤◌, ◌≡◌, refl, ap, Bool, true, false, List, [], ◌∷◌, ◌++◌, Option, none,
  arith, length,
}
use simpool.Text.{Text}
use simpool.Meta.{Meta}
use simpool.Procs.{Os}
use simpool.Poison.{
  Poison, PoisonReason, OwnerDeclaration, not_poisoned, by_consumer_pgid, by_live_consumers,
  by_check_failure, by_orphaned_residue, no_declaration,
}
use simpool.Poison.Recovery.{
  Kernel, Machine, killed, kill_each, kill_and_verify, reclaim_orphaned_residue, recover_group,
  recover_by, attempt_recovery_for, attempt_recovery,
}
use simpool.Availability.{
  Availability, SlotState, slot_free, slot_busy, slot_leased, slot_quarantined, slot_unverifiable,
}
use simpool.Group.{
  World, os_of, numbers, Claim, claim_taken, claim_busy, claim_over_use_cap, claim_failed,
  claim_slot_lock_capped, unlock,
}
use simpool.Group.Cap.{claim-machine}
use simpool.Dispatch.{dispatch_order, fresh_number}
use simpool.Claims.{Context, recover_slot}
use simpool.Acquire.{
  Walk, decide_take, after_take, take, take_each, take_new, finish, declines, passes_after,
  after_first, try_acquire_slots, release_slot, release_all,
}
use simpool.Acquire.Walking.{then_take_keeps}

-- No answer of the kernel sets the clock back.
abbrev pub KernelRuns : Kernel → Type 0
KernelRuns k =
    ((p : ℕ) (os : Os) → os.now ≤ (k.kill_group p os).1.now)
    × ((p : ℕ) (os : Os) → os.now ≤ (k.kill p os).now)
    × ((os : Os) → os.now ≤ (k.wait os).now)
    × ((u : Text) (os : Os) → os.now ≤ (k.shutdown u os).1.now)

module _ (k : Kernel) (runs : KernelRuns k) where
  kill_each-later : (ps : List ℕ) (m : Machine) → m.os.now ≤ (kill_each k ps m).os.now
  unfolding kill_each
  kill_each-later [] m = omega arith
  kill_each-later (p ∷ ps) m = omega (
    arith,
    runs.1 p m.os,
    kill_each-later ps (record { os = k.kill p m.os; acts = killed p ∷ m.acts }),
  )

  kill_and_verify-later : (ps : List ℕ) (m : Machine) → m.os.now ≤ (kill_and_verify k ps m).1.os.now
  unfolding kill_and_verify
  kill_and_verify-later ps m = omega (arith, kill_each-later ps m, runs.2 (kill_each k ps m).os)

  recover_group-later :
      (expected : Text) (m : Meta) (g : ℕ) (w : Machine)
      → w.os.now ≤ (recover_group k expected m g w).machine.os.now
  unfolding recover_group
  recover_group-later expected m g w =
      let os₁ = (k.kill_group g w.os).1 in
      ground (arith, runs.0 g w.os, runs.2 os₁, runs.3 m.udid (k.wait os₁))

  recover_by-later :
      (r : PoisonReason) (expected : Text) (m : Meta) (p : Poison) (d : OwnerDeclaration)
      (w : Machine)
      → w.os.now ≤ (recover_by r k expected m p d w).machine.os.now
  unfolding recover_by reclaim_orphaned_residue
  recover_by-later not_poisoned expected m p d w = omega arith
  recover_by-later by_live_consumers expected m p d w = omega arith
  recover_by-later by_check_failure expected m p d w = omega arith
  recover_by-later by_orphaned_residue expected m p d w =
      ground (arith, kill_and_verify-later p.residue_pids w)
  recover_by-later by_consumer_pgid expected m p d w =
      ground (arith, recover_group-later expected m p.pgid w)

module _ (c : Context) (runs : KernelRuns c.kernel) where
  recover_slot-later :
      (n : ℕ) (m : Meta) (p : Poison) (w : World)
      → (os_of w).now ≤ (os_of (recover_slot c n m p w).1).now
  unfolding recover_slot attempt_recovery attempt_recovery_for
  recover_slot-later n m p w =
      recover_by-later c.kernel runs p.reason _ m p no_declaration w.machine

  decide_take-later :
      (st : SlotState) (n : ℕ) (av : Availability) (k : Walk)
      → (os_of k.world).now ≤ (os_of (decide_take st c n av k).world).now
  unfolding decide_take unlock
  decide_take-later slot_free n av k = omega arith
  decide_take-later slot_busy n av k = omega arith
  decide_take-later slot_leased n av k = omega arith
  decide_take-later slot_unverifiable n av k = omega arith
  decide_take-later slot_quarantined n av k =
      ground (arith, recover_slot-later n av.meta av.poison k.world)

  after_take-later :
      (claim : Claim) (n : ℕ) (k : Walk)
      → (os_of k.world).now ≤ (os_of (after_take claim c n k).1.world).now
  unfolding after_take
  after_take-later claim_taken n k = decide_take-later _ n _ k
  after_take-later claim_busy n k = omega arith
  after_take-later (claim_over_use_cap uses) n k = omega arith
  after_take-later claim_failed n k = omega arith

  take-later : (max n : ℕ) (k : Walk) → (os_of k.world).now ≤ (os_of (take c max n k).1.world).now
  unfolding take
  take-later max n k =
      let x = claim_slot_lock_capped n max k.acquired [] k.world in
      let same : (os_of x.1).now ≡ (os_of k.world).now =
        ap (λ m. m.os.now) (claim-machine n max k.acquired [] k.world) in
      omega (arith, after_take-later x.0 n (record k { world = x.1 }))

  -- Time `t` or later.
  abbrev Since : ℕ → Walk → Type 0
  Since t k = t ≤ (os_of k.world).now

  module _ (count max t : ℕ) where
    take-Since : (n : ℕ) (k : Walk) → Since t k → Since t (take c max n k).1
    take-Since n k h = omega (arith, take-later max n k)

    take_each-Since : (ns : List ℕ) (k : Walk) → Since t k → Since t (take_each c count max ns k).1
    unfolding take_each
    take_each-Since [] k h = h
    take_each-Since (n ∷ ns) k h = ground (
      arith,
      take_each-Since ns k h,
      then_take_keeps (Since t) (take c max n k) (take_each c count max ns) (take-Since n k h)
          (take_each-Since ns),
    )

    take_new-Since :
        (room next : ℕ) (resident : List ℕ) (k : Walk)
        → Since t k
        → Since t (take_new c count max room next resident k).1
    unfolding take_new
    take_new-Since zero next resident k h = h
    take_new-Since (suc room) next resident k h =
        let n = fresh_number next resident in
        ground (
          arith,
          then_take_keeps (Since t) (take c max n k)
              (take_new c count max room (n + 1) (n ∷ resident)) (take-Since n k h)
              (take_new-Since room (n + 1) (n ∷ resident)),
        )

  release_all-machine : (ns : List ℕ) (w : World) → (release_all ns w).machine ≡ w.machine
  unfolding release_all release_slot
  release_all-machine [] w = refl
  release_all-machine (n ∷ ns) w = release_all-machine ns (release_slot n w)

  module _ (memory : Option (ℕ × ℕ)) (percent count max : ℕ) where
    finish-later :
        (declined : Bool) (r : Bool × Walk)
        → (os_of r.1.world).now ≤ (os_of (finish count declined r).1).now
    unfolding finish
    finish-later declined (false, k) =
        ground (arith, ap (λ m. m.os.now) (release_all-machine k.acquired k.world))
    finish-later declined (true, k) =
        ground (arith, ap (λ m. m.os.now) (release_all-machine k.acquired k.world))

    passes_after-Since :
        (t : ℕ) (existing order : List ℕ) (k : Walk) (declined : Bool)
        → Since t k
        → Since t (passes_after c memory percent count max existing order k declined).1
    unfolding passes_after
    passes_after-Since t existing order k true h = take_each-Since count max t order k h
    passes_after-Since t existing order k false h =
        then_take_keeps (Since t) (take_new c count max (max - length existing) 0 existing k)
          (take_each c count max order)
          (take_new-Since count max t (max - length existing) 0 existing k h)
          (take_each-Since count max t order)

    after_first-later :
        (t : ℕ) (existing order : List ℕ) (r : Bool × Walk)
        → Since t r.1
        → t ≤ (os_of (after_first c memory percent count max existing order r).1).now
    unfolding after_first
    after_first-later t existing order (false, k) h = omega (arith, finish-later false (false, k))
    after_first-later t existing order (true, k) h =
        let declined = declines c memory percent count max existing k in
        let r = passes_after c memory percent count max existing order k declined in
        omega (arith, finish-later declined r, passes_after-Since t existing order k declined h)

    pub try_acquire_slots-later :
        (w : World) → (os_of w).now ≤ (os_of (try_acquire_slots c memory percent count max w).1).now
    unfolding try_acquire_slots
    try_acquire_slots-later w =
        let order = dispatch_order c.want w.slots in
        let start : Walk = record { world = w; acquired = []; refusals = []; cap = none } in
        after_first-later (os_of w).now (numbers w.slots) (order.0 ++ order.1)
          (take_each c count max order.0 start)
          (take_each-Since count max (os_of w).now order.0 start (omega arith))
