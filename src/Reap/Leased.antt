-- ===== src/Reap/Leased.antt =====
-- The pass over one slot as a whole: the order of its checks.
use simpool.Common.{
  ℕ, ◌≡◌, ◌≢◌, refl, ◌⊎◌, inl, inr, Bool, true, false, ◌||◌, [], ◌++◌, Option, none, some, arith,
  Bool-cases, has, ◌∙◌, ap, ◌==◌,
}
use simpool.Text.{is_empty}
use simpool.Meta.{LeaseFile, absent, unreadable, present, lease_alive}
use simpool.Poison.{not_poisoned, poisoned, check_poison}
use simpool.Poison.Recovery.{Act}
use simpool.Poison.Kills.{Adds, Adds-weaken}
use simpool.Availability.{SlotDir, unlocked, locked}
use simpool.Group.{World, os_of, numbers, slot_at, unlock}
use simpool.Group.Slots.{slot_at-put_slot_self, slot_at-put_slot_ne, has-put_slot}
use simpool.Claims.{Context}
use simpool.Leases.{cleanup_expired_lease}
use simpool.Reclaims.{free_of_lease}
use simpool.Reap.{Reaper, Limits, reap_idle, reap_poisoned}
use simpool.Reap.Idle.{OthersApart, Idles, reap_idle-Idles}
use simpool.Reap.Quarantined.{Quarantines, reap_poisoned-Quarantines}
use simpool.Reap.Slot.{
  Stage, stops, passes, cleaned, clean_up, past_lease, reap_free, if_passes, lock_slot, give_up,
  reap_by, reap_slot,
}

-- What stands behind an act on slot `n` as `v` has it: no live lease and a lease.json that can be
-- read, and the reasons of the pass over an idle or over a quarantined slot.
abbrev pub Reaps : Reaper → Limits → ℕ → Bool → World → Act → Type 0
Reaps r o n keep_warm v a =
    let d = slot_at n v.slots in
    let p = check_poison (os_of v) d.meta in
    (free_of_lease (os_of v).now d.lease_file ≡ true)
    × (((p.reason ≡ not_poisoned) × Idles r o n d.meta keep_warm v a)
        ⊎ ((poisoned p.reason ≡ true) × Quarantines r o n d.meta p v a))

-- The outcome of the check of the lease: the slot has no live lease and a lease.json that can be
-- read, and nothing has been done to the machine.
abbrev Checked : ℕ → World → Stage → Type 0
Checked n w (stops v) = v.machine.acts ≡ w.machine.acts
Checked n w (passes v) =
    (v.machine.acts ≡ w.machine.acts)
    × (free_of_lease (os_of v).now (slot_at n v.slots).lease_file ≡ true)

module _ (c : Context) (n : ℕ) (w : World) (others : OthersApart c) where
  cleaned-Checked :
      (v : World) (out : Option (SlotDir × Bool))
      → v.machine.acts ≡ w.machine.acts
      → ((d : SlotDir) → out ≡ some (d, true) → d.lease_file ≡ absent)
      → Checked n w (cleaned n v out)
  cleaned-Checked v none e h = e
  cleaned-Checked v (some (d, false)) e h = e
  cleaned-Checked v (some (d, true)) e h = (e, rw (slot_at-put_slot_self, h d refl) refl)

  removed-absent :
      (v : World) (d : SlotDir)
      → cleanup_expired_lease (os_of v) (slot_at n v.slots) ≡ some (d, true)
      → d.lease_file ≡ absent
  unfolding cleanup_expired_lease
  removed-absent v d h = ground arith

  past_lease-Checked :
      (file : LeaseFile) (dry : Bool)
      → (slot_at n w.slots).lease_file ≡ file
      → Checked n w (past_lease file c dry n w)
  unfolding past_lease clean_up
  past_lease-Checked absent dry e = (refl, rw e refl)
  past_lease-Checked unreadable dry e = refl
  past_lease-Checked (present l) dry e = elim (Bool-cases (lease_alive (os_of w).now l)) [
    | inl a ↦ rw a refl
    | inr a ↦ rw a (elim (Bool-cases (is_empty l.key || dry)) [
      | inl k ↦ rw k (refl, rw e (ground (arith, a)))
      | inr k ↦ rw k (cleaned-Checked (c.sleep w) _ (others w) (removed-absent (c.sleep w)))
    ])
  ]

pub give_up-acts : (n : ℕ) (w : World) → (give_up n w).machine ≡ w.machine
unfolding unlock
give_up-acts n w = ground arith

module _ (r : Reaper) (o : Limits) (n : ℕ) (keep_warm : Bool) (others : OthersApart r.context) where
  reap_free-Reaps :
      (v : World)
      → free_of_lease (os_of v).now (slot_at n v.slots).lease_file ≡ true
      → Adds (Reaps r o n keep_warm v) v.machine (reap_free r o n keep_warm v).machine
  unfolding reap_free
  reap_free-Reaps v free =
      let m = (slot_at n v.slots).meta in
      let p = check_poison (os_of v) m in
      elim (Bool-cases (poisoned p.reason)) [
        | inl e ↦ rw e (
            Adds-weaken (Quarantines r o n m p v) (Reaps r o n keep_warm v) v.machine
              (reap_poisoned r o n m p v).machine (λ a h. (free, inr (e, h)))
              (reap_poisoned-Quarantines r o n m p v))
        | inr e ↦ rw e (
            Adds-weaken (Idles r o n m keep_warm v) (Reaps r o n keep_warm v) v.machine
              (reap_idle r o n m keep_warm v).machine (λ a h. (free, inl (ground arith, h)))
              (reap_idle-Idles r o n m keep_warm v others))
      ]

  -- The world in which the pass acts on the slot, once the check of its lease has let it pass.
  abbrev pub Passed : World → World → Type 0
  Passed w v =
      past_lease (slot_at n w.slots).lease_file r.context o.dry_run n (lock_slot n w) ≡ passes v

  staged-Adds :
      (w : World) (stage : Stage)
      → past_lease (slot_at n w.slots).lease_file r.context o.dry_run n (lock_slot n w) ≡ stage
      → Checked n w stage
      → Adds
          (λ a. (v : World) × Passed w v × Reaps r o n keep_warm v a)
          w.machine
          (if_passes stage (reap_free r o n keep_warm)).machine
  staged-Adds w (stops v) s h = ([], h, tt)
  staged-Adds w (passes v) s (e, free) =
      let (new, f, a) =
        Adds-weaken (Reaps r o n keep_warm v)
          (λ a. (v : World) × Passed w v × Reaps r o n keep_warm v a) v.machine
          (reap_free r o n keep_warm v).machine (λ a h. (v, s, h)) (reap_free-Reaps v free) in
      (new, f ∙ ap (λ acts. new ++ acts) e, a)

  -- Whatever `reap` does to processes and simulators on account of a slot whose flock is free, it
  -- does behind the check of the slot's lease, in a world where lease.json can be read and holds no
  -- live lease; and, by the verdict on the slot's previous consumer there, for the reasons of an idle
  -- or of a quarantined slot. This holds where what other processes do is kept apart from the acts of
  -- this one.
  pub reap_slot-Reaps :
      (w : World)
      → (slot_at n w.slots).lock ≡ unlocked
      → Adds
          (λ a. (v : World) × Passed w v × Reaps r o n keep_warm v a)
          w.machine
          (reap_slot r o n keep_warm w).machine
  unfolding reap_slot reap_by
  reap_slot-Reaps w free =
      let stage = past_lease (slot_at n w.slots).lease_file r.context o.dry_run n (lock_slot n w) in
      let checked =
        past_lease-Checked r.context n (lock_slot n w) others (slot_at n w.slots).lease_file
          o.dry_run (rw slot_at-put_slot_self refl) in
      rw (free, reap_slot, give_up-acts) (staged-Adds w stage refl checked)

-- A lease that is live or cannot be read stops the pass.
leased-stops :
    (file : LeaseFile) (c : Context) (dry : Bool) (n : ℕ) (w : World)
    → free_of_lease (os_of w).now file ≡ false
    → past_lease file c dry n w ≡ stops w
unfolding past_lease
leased-stops absent c dry n w h = cc
leased-stops unreadable c dry n w h = refl
leased-stops (present l) c dry n w h = ground arith

relocked : (n : ℕ) (w : World) → give_up n (lock_slot n w) ≡ unlock n (lock_slot n w)
relocked n w =
    let d = record (slot_at n w.slots) { lock = locked } in
    let listed : has n (numbers (lock_slot n w).slots) ≡ true =
      ground (arith, has-put_slot n n d w.slots) in
    rw listed refl

same_dir : (d : SlotDir) → d.lock ≡ unlocked → record d { lock = unlocked } ≡ d
same_dir d h = ground arith

-- Taking a free flock and giving it back leaves every directory as it was.
unlock-lock_slot :
    (n k : ℕ) (w : World)
    → (slot_at n w.slots).lock ≡ unlocked
    → slot_at k (unlock n (lock_slot n w)).slots ≡ slot_at k w.slots
unfolding unlock
unlock-lock_slot n k w free = elim (Bool-cases (k == n)) [
  | inl e ↦
      let eq : k ≡ n = ground arith in
      rw (eq, slot_at-put_slot_self, slot_at-put_slot_self) (same_dir (slot_at n w.slots) free)
  | inr e ↦
      let ne : k ≢ n = λ eq. ground arith in
      slot_at-put_slot_ne n k _ _ ne ∙ slot_at-put_slot_ne n k _ w.slots ne
]

-- `reap` leaves a slot that is free of its flock but has a live lease, or one that it cannot read,
-- exactly as it found it: it does nothing to any process or simulator, and every slot directory of
-- the group, this one included, reads as before.
pub reap_slot-leased :
    (r : Reaper) (o : Limits) (n : ℕ) (keep_warm : Bool) (w : World)
    → (slot_at n w.slots).lock ≡ unlocked
    → free_of_lease (os_of w).now (slot_at n w.slots).lease_file ≡ false
    → ((reap_slot r o n keep_warm w).machine ≡ w.machine)
      × ((k : ℕ) → slot_at k (reap_slot r o n keep_warm w).slots ≡ slot_at k w.slots)
unfolding reap_slot reap_by unlock
reap_slot-leased r o n keep_warm w free leased =
    let stop =
      leased-stops (slot_at n w.slots).lease_file r.context o.dry_run n (lock_slot n w) leased in
    rw (free, reap_slot, stop, relocked) (refl, λ k. unlock-lock_slot n k w free)
