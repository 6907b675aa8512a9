-- ===== src/Claims/Book.antt =====
-- The leases of a group as a book that has one entry for each slot number, and the claim of a slot
-- for a lease as a step on it.
use simpool.Common.{
  ℕ, [], ◌+◌, ◌≡◌, ◌≢◌, refl, inl, inr, Bool, true, false, ◌&&◌, ◌==◌, arith, ap, ◌∙◌, Bool-cases,
}
use simpool.Text.{Text}
use simpool.Meta.{Meta, Lease, LeaseFile, present, unreadable, lease_alive}
use simpool.Poison.{Poison}
use simpool.Availability.{
  Availability, SlotDir, SlotState, slot_free, slot_quarantined, slot_busy, slot_leased,
  slot_unverifiable, slot_availability_locked,
}
use simpool.Group.{
  World, Slots, Claim, os_of, slot_at, put_slot, unlock, claim_taken, claim_busy,
  claim_over_use_cap, claim_failed, claim_slot_lock_capped,
}
use simpool.Group.Slots.{slot_at-put_slot}
use simpool.Group.Cap.{claim_else, claim_taken_found}
use simpool.Claims.{
  Context, LeaseClaim, lease_taken, lease_refused, lease_over_cap, lease_failed, recover_slot,
  decide_lease, after_claim, claim_slot_for_lease, is_residue,
}
use simpool.Claims.Safety.{Grantable, Granted, claim_slot_for_lease-Granted}

-- What each slot's lease.json says.
abbrev pub Book : Type 0
Book = ℕ → LeaseFile

abbrev pub book : World → Book
book w n = (slot_at n w.slots).lease_file

-- Nobody but `key` has a live lease in the entry at time `now`.
abbrev pub FreeFor : Text → ℕ → LeaseFile → Type 0
FreeFor key now file =
    (file ≢ unreadable) × ((l : Lease) → file ≡ present l → lease_alive now l ≡ true → l.key ≡ key)

-- A claim of entry `n` for a key: it writes the key's lease into an entry that is free for the key,
-- or it leaves the book as it is.
pub data BookStep (n : ℕ) (key : Text) (now expires_at : ℕ) (b b' : Book) : Bool → Type 0 where
  granted :
      FreeFor key now (b n)
      → b' n ≡ present (record { key = key; expires_at = expires_at })
      → ((m : ℕ) → m ≢ n → b' m ≡ b m)
      → BookStep n key now expires_at b b' true
  refused : ((m : ℕ) → b' m ≡ b m) → BookStep n key now expires_at b b' false

abbrev pub is_taken : LeaseClaim → Bool
is_taken lease_taken = true
is_taken _ = false

-- The two worlds have one book.
abbrev SameBook : World → World → Type 0
SameBook w v = (m : ℕ) → book v m ≡ book w m

put_slot-SameBook :
    (n : ℕ) (d : SlotDir) (s : Slots)
    → d.lease_file ≡ (slot_at n s).lease_file
    → (m : ℕ) → (slot_at m (put_slot n d s)).lease_file ≡ (slot_at m s).lease_file
put_slot-SameBook n d s e m = elim (Bool-cases (n == m)) [
  | inl q ↦
      let same : m ≡ n = ground arith in
      ap (λ x. x.lease_file) (slot_at-put_slot n m d s) ∙ rw (q, same) e
  | inr q ↦ ap (λ x. x.lease_file) (slot_at-put_slot n m d s) ∙ rw q refl
]

module _ (c : Context) (n : ℕ) (key : Text) (ttl : ℕ) where
  unlock-SameBook : (w : World) → SameBook w (unlock n w)
  unfolding unlock
  unlock-SameBook w = put_slot-SameBook n _ w.slots refl

  recover_slot-SameBook :
      (m : Meta) (p : Poison) (w : World) → SameBook w (recover_slot c n m p w).1
  unfolding recover_slot
  recover_slot-SameBook m p w = put_slot-SameBook n _ w.slots refl

  decide_lease-SameBook :
      (st : SlotState) (av : Availability) (w : World)
      → is_taken (decide_lease st c n key ttl av w).0 ≡ false
      → SameBook w (decide_lease st c n key ttl av w).1
  unfolding decide_lease
  decide_lease-SameBook slot_free av w h =
      elim (Bool-cases (av.own_lease_residue && is_residue av.poison.reason)) [
        | inl e ↦ cc (rw (e, decide_lease) at h)
        | inr e ↦ cc (rw (e, decide_lease) at h)
      ]
  decide_lease-SameBook slot_quarantined av w h =
      let r = recover_slot c n av.meta av.poison w in
      elim (Bool-cases r.0) [
        | inl e ↦ cc (rw (e, decide_lease) at h)
        | inr e ↦
            rw (e, decide_lease)
              (λ m. unlock-SameBook r.1 m ∙ recover_slot-SameBook av.meta av.poison w m)
      ]
  decide_lease-SameBook slot_busy av w h = unlock-SameBook w
  decide_lease-SameBook slot_leased av w h = unlock-SameBook w
  decide_lease-SameBook slot_unverifiable av w h = unlock-SameBook w

  after_claim-SameBook :
      (claim : Claim) (w : World)
      → is_taken (after_claim claim c n key ttl w).0 ≡ false
      → SameBook w (after_claim claim c n key ttl w).1
  unfolding after_claim
  after_claim-SameBook claim_taken w h =
      let av = slot_availability_locked (os_of w) (slot_at n w.slots) key in
      decide_lease-SameBook av.state av w h
  after_claim-SameBook claim_busy w h = λ m. refl
  after_claim-SameBook (claim_over_use_cap uses) w h = λ m. refl
  after_claim-SameBook claim_failed w h = λ m. refl

  module _ (max : ℕ) (w : World) where
    claim-SameBook : SameBook w (claim_slot_lock_capped n max [] key w).1
    claim-SameBook = elim (claim_else n max [] key w) [
      | inl taken ↦
          rw (claim_taken_found n max [] key w taken).1 (put_slot-SameBook n _ w.slots refl)
      | inr (_, same) ↦ λ m. ap (λ x. x.lease_file) (same.1 m)
    ]

    claim_slot-SameBook :
        is_taken (claim_slot_for_lease c n key ttl max w).0 ≡ false
        → SameBook w (claim_slot_for_lease c n key ttl max w).1
    unfolding claim_slot_for_lease
    claim_slot-SameBook h =
        let x = claim_slot_lock_capped n max [] key w in
        λ m. after_claim-SameBook x.0 x.1 h m ∙ claim-SameBook m

    -- A claim of a slot for a lease does to the group's book of leases one step of its specification: a
    -- grant, where the entry is free for the key when the claim starts, writes the key's lease for
    -- `ttl` from its end and leaves the other entries; a refusal leaves the whole book. That holds
    -- whatever the recovery of a quarantined slot does to the machine.
    pub claim_slot_for_lease-BookStep :
        let r = claim_slot_for_lease c n key ttl max w in
        BookStep n key (os_of w).now ((os_of r.1).now + ttl) (book w) (book r.1) (is_taken r.0)
    claim_slot_for_lease-BookStep =
        let r = claim_slot_for_lease c n key ttl max w in
        by r.0 r.1 (λ e. let g = claim_slot_for_lease-Granted c n key ttl max w e in (g.2, g.3))
          claim_slot-SameBook
      where
        by :
            (out : LeaseClaim) (v : World)
            → (out ≡ lease_taken → Grantable c n key w × Granted n key ttl w v)
            → (is_taken out ≡ false → SameBook w v)
            → BookStep n key (os_of w).now ((os_of v).now + ttl) (book w) (book v) (is_taken out)
        by lease_taken v f same =
            let (why, written) = f refl in
            granted (why.0, λ l e alive. (rw e at why.1) alive) written.0
              (λ m ne. ap (λ x. x.lease_file) (written.2 m ne))
        by (lease_refused av) v f same = refused (same refl)
        by (lease_over_cap uses) v f same = refused (same refl)
        by lease_failed v f same = refused (same refl)
