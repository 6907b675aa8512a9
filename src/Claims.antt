-- ===== src/Claims.antt =====
-- internal/pool/lease.go: the claim of one slot for a lease. A call runs against the group as it is;
-- the kernel's answers are `kernel`, and while the call sleeps, `sleep` is whatever the other
-- processes and the clock do. All readings of the clock between two sleeps or kills agree.
pub mod Safety
pub mod Book
use simpool.Common.{
  ℕ, zero, suc, ◌+◌, Bool, true, false, not, ◌&&◌, ◌||◌, List, [], ◌∷◌, ◌++◌, Option, none, some,
  ltb, leb, ◌==◌, if◌then◌else◌, has, length,
}
use simpool.Text.{Text, text_eq, is_empty}
use simpool.Meta.{Meta, Lease, LeaseFile, absent, unreadable, present, lease_alive}
use simpool.Procs.{Os}
use simpool.Poison.{Poison, PoisonReason, by_orphaned_residue, clean}
use simpool.Poison.Recovery.{Kernel, Machine, attempt_recovery}
use simpool.Availability.{
  Availability, SlotDir, SlotState, slot_free, slot_busy, slot_quarantined, unlocked,
  no_availability, slot_availability_locked,
}
use simpool.Names.{device_name_for_group}
use simpool.Group.{
  Slots, World, os_of, numbers, slot_at, put_slot, SlotUse, Claim, claim_taken, claim_busy,
  claim_over_use_cap, claim_failed, claim_slot_lock_capped, shutdown_in_progress, unlock,
}
use simpool.Dispatch.{dispatch_order, fresh_number}

-- What a call runs in: the machine's answers, what others do while it sleeps, RootTag(root), the
-- group's name and the categories of --need.
pub record Context : Type 0 where
  pub kernel : Kernel
  pub sleep : World → World
  pub root_tag : Text
  pub group : Text
  pub want : List Text

-- SlotRefusal
pub record SlotRefusal : Type 0 where
  pub number : ℕ
  pub availability : Availability
  pub taken_then_released : Bool

abbrev pub refused_for : ℕ → Availability → SlotRefusal
refused_for n av = record { number = n; availability = av; taken_then_released = false }

-- AttemptRecovery on slot `n`, with what it writes to meta.json.
unfoldable pub recover_slot : Context → ℕ → Meta → Poison → World → Bool × World
recover_slot c n m p w =
    let r = attempt_recovery c.kernel (device_name_for_group c.root_tag c.group n) m p w.machine in
    (
      r.recovered,
      record {
        slots = put_slot n (record (slot_at n w.slots) { meta = r.meta }) w.slots;
        machine = r.machine;
      },
    )

-- WriteLease(dir, Lease{key, now + ttl})
unfoldable pub write_lease : ℕ → Text → ℕ → World → World
write_lease n key ttl w =
    let l : Lease = record { key = key; expires_at = (os_of w).now + ttl } in
    record w { slots = put_slot n (record (slot_at n w.slots) { lease_file = present l }) w.slots }

-- The outcome of claimSlotForLease.
pub data LeaseClaim : Type 0 where
  lease_taken : LeaseClaim
  lease_refused : Availability → LeaseClaim
  lease_over_cap : List SlotUse → LeaseClaim
  lease_failed : LeaseClaim

abbrev pub grant : ℕ → Text → ℕ → World → LeaseClaim × World
grant n key ttl w = (lease_taken, unlock n (write_lease n key ttl w))

abbrev pub is_residue : PoisonReason → Bool
is_residue by_orphaned_residue = true
is_residue _ = false

-- claimSlotForLease once it holds the slot's flock.
unfoldable pub decide_lease :
    SlotState → Context → ℕ → Text → ℕ → Availability → World → LeaseClaim × World
decide_lease slot_free c n key ttl av w =
    if av.own_lease_residue && is_residue av.poison.reason
    then grant n key ttl (recover_slot c n av.meta av.poison w).1
    else grant n key ttl w
decide_lease slot_quarantined c n key ttl av w =
    let (recovered, w') = recover_slot c n av.meta av.poison w in
    if recovered then grant n key ttl w' else (lease_refused av, unlock n w')
decide_lease _ c n key ttl av w = (lease_refused av, unlock n w)

unfoldable pub after_claim : Claim → Context → ℕ → Text → ℕ → World → LeaseClaim × World
after_claim claim_taken c n key ttl w =
    let av = slot_availability_locked (os_of w) (slot_at n w.slots) key in
    decide_lease av.state c n key ttl av w
after_claim claim_busy c n key ttl w =
    (lease_refused (record no_availability { state = slot_busy }), w)
after_claim (claim_over_use_cap uses) c n key ttl w = (lease_over_cap uses, w)
after_claim claim_failed c n key ttl w = (lease_failed, w)

-- claimSlotForLease
unfoldable pub claim_slot_for_lease : Context → ℕ → Text → ℕ → ℕ → World → LeaseClaim × World
claim_slot_for_lease c n key ttl max w =
    let (claim, w') = claim_slot_lock_capped n max [] key w in after_claim claim c n key ttl w'
