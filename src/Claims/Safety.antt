-- ===== src/Claims/Safety.antt =====
-- Whom claimSlotForLease gives a slot, and what it leaves behind.
use simpool.Common.{
  ℕ, ◌+◌, ◌≤◌, ◌<◌, ◌≡◌, refl, ◌≢◌, ◌⊎◌, inl, inr, true, not, ◌&&◌, [], arith, length, Bool-cases,
  ◌∙◌,
}
use simpool.Text.{Text, text_eq, text_eq_iff}
use simpool.Meta.{Meta, Lease, LeaseFile, absent, unreadable, present, lease_alive, no_lease}
use simpool.Procs.{Os}
use simpool.Poison.{Poison, check_poison}
use simpool.Poison.Recovery.{attempt_recovery}
use simpool.Availability.{
  Availability, SlotState, slot_free, slot_busy, slot_leased, slot_quarantined, slot_unverifiable,
  unlocked, lease_of, slot_availability_locked, availability_by, availability_of,
}
use simpool.Availability.Exemption.{Takeable, slot_availability_locked-free}
use simpool.Names.{device_name_for_group}
use simpool.Group.{
  World, os_of, slot_at, Claim, claim_taken, claim_busy, claim_over_use_cap, claim_failed,
  claim_slot_lock_capped, census_in_use, unlock,
}
use simpool.Group.Slots.{slot_at-put_slot_self, slot_at-put_slot_ne}
use simpool.Group.Cap.{claim_taken_found, locked_at}
use simpool.Claims.{
  Context, recover_slot, write_lease, lease_taken, decide_lease, grant, is_residue, after_claim,
  claim_slot_for_lease,
}

-- What a granted lease leaves: the key's lease for `ttl` from now, the flock free, and every other
-- slot as it was.
abbrev pub Granted : ℕ → Text → ℕ → World → World → Type 0
Granted n key ttl w w' =
    ((slot_at n w'.slots).lease_file
      ≡ present (record { key = key; expires_at = (os_of w').now + ttl }))
    × ((slot_at n w'.slots).lock ≡ unlocked)
    × ((m : ℕ) → m ≢ n → slot_at m w'.slots ≡ slot_at m w.slots)

-- Why a slot may be granted: it is takeable for the key, or it was quarantined and its previous
-- consumer has just been verified and reclaimed.
abbrev pub Grantable : Context → ℕ → Text → World → Type 0
Grantable c n key w =
    let d = slot_at n w.slots in
    (d.lease_file ≢ unreadable)
    × (lease_alive (os_of w).now (lease_of d.lease_file) ≡ true → (lease_of d.lease_file).key ≡ key)
    × (Takeable (os_of w) d key
        ⊎ ((attempt_recovery c.kernel (device_name_for_group c.root_tag c.group n) d.meta
              (check_poison (os_of w) d.meta) w.machine).recovered
            ≡ true))

module _ (c : Context) (n : ℕ) (key : Text) (ttl : ℕ) where
  grant-Granted : (w : World) → Granted n key ttl w (grant n key ttl w).1
  unfolding write_lease unlock
  grant-Granted w = (
    simp slot_at-put_slot_self,
    simp slot_at-put_slot_self,
    λ m ne. slot_at-put_slot_ne n m _ _ ne ∙ slot_at-put_slot_ne n m _ w.slots ne,
  )

  recover_slot-frame :
      (m : Meta) (p : Poison) (w : World) (k : ℕ)
      → k ≢ n
      → slot_at k (recover_slot c n m p w).1.slots ≡ slot_at k w.slots
  unfolding recover_slot
  recover_slot-frame m p w k ne = slot_at-put_slot_ne n k _ w.slots ne

  recovered-Granted :
      (m : Meta) (p : Poison) (w : World)
      → Granted n key ttl w (grant n key ttl (recover_slot c n m p w).1).1
  recovered-Granted m p w =
      let g = grant-Granted (recover_slot c n m p w).1 in
      (g.0, g.1, λ k ne. g.2 k ne ∙ recover_slot-frame m p w k ne)

  -- A granted claim was free, or was quarantined and recovered.
  decide_lease-Granted :
      (st : SlotState) (av : Availability) (w : World)
      → (decide_lease st c n key ttl av w).0 ≡ lease_taken
      → ((st ≡ slot_free)
          ⊎ ((st ≡ slot_quarantined) × ((recover_slot c n av.meta av.poison w).0 ≡ true)))
        × Granted n key ttl w (decide_lease st c n key ttl av w).1
  unfolding decide_lease
  decide_lease-Granted slot_free av w h =
      elim (Bool-cases (av.own_lease_residue && is_residue av.poison.reason)) [
        | inl e ↦ rw (e, decide_lease) (inl refl, recovered-Granted av.meta av.poison w)
        | inr e ↦ rw (e, decide_lease) (inl refl, grant-Granted w)
      ]
  decide_lease-Granted slot_quarantined av w h =
      elim (Bool-cases (recover_slot c n av.meta av.poison w).0) [
        | inl e ↦ rw (e, decide_lease) (inr (refl, refl), recovered-Granted av.meta av.poison w)
        | inr e ↦ cc (rw (e, decide_lease) at h)
      ]
  decide_lease-Granted slot_busy av w h = cc
  decide_lease-Granted slot_leased av w h = cc
  decide_lease-Granted slot_unverifiable av w h = cc

  after_claim_taken :
      (claim : Claim) (w : World)
      → (after_claim claim c n key ttl w).0 ≡ lease_taken
      → claim ≡ claim_taken
  unfolding after_claim
  after_claim_taken claim_taken w h = refl
  after_claim_taken claim_busy w h = cc
  after_claim_taken (claim_over_use_cap uses) w h = cc
  after_claim_taken claim_failed w h = cc

-- What a quarantine says besides.
abbrev QuarantineFacts : LeaseFile → Os → Meta → Text → Availability → Type 0
QuarantineFacts file os m key av =
    (file ≢ unreadable)
    × (lease_alive os.now (lease_of file) ≡ true → (lease_of file).key ≡ key)
    × (av.poison ≡ check_poison os m)
    × (av.meta ≡ m)

quarantined_of :
    (os : Os) (m : Meta) (l : Lease) (key : Text)
    → (availability_of os m l key).state ≡ slot_quarantined
    → (lease_alive os.now l ≡ true → l.key ≡ key)
      × ((availability_of os m l key).poison ≡ check_poison os m)
      × ((availability_of os m l key).meta ≡ m)
unfolding availability_of
quarantined_of os m l key h = elim (Bool-cases (lease_alive os.now l && not (text_eq l.key key))) [
  | inl e ↦ cc (rw (e, availability_of) at h)
  | inr e ↦ rw e (λ a. (text_eq_iff l.key key).0 (ground arith), refl, refl)
]

quarantined_by :
    (file : LeaseFile) (os : Os) (m : Meta) (key : Text)
    → (availability_by file os m key).state ≡ slot_quarantined
    → QuarantineFacts file os m key (availability_by file os m key)
unfolding availability_by
quarantined_by absent os m key h =
    let q = quarantined_of os m no_lease key h in (λ e. cc, q.0, q.1, q.2)
quarantined_by unreadable os m key h = cc
quarantined_by (present l) os m key h =
    let q = quarantined_of os m l key h in (λ e. cc, q.0, q.1, q.2)

module _ (c : Context) (n : ℕ) (key : Text) (w : World) where
  pub grantable :
      let av = slot_availability_locked (os_of w) (slot_at n w.slots) key in
      ((av.state ≡ slot_free)
        ⊎ ((av.state ≡ slot_quarantined)
            × ((recover_slot c n av.meta av.poison (locked_at n w)).0 ≡ true)))
      → Grantable c n key w
  unfolding recover_slot slot_availability_locked
  grantable (inl free) =
      let t = (slot_availability_locked-free (os_of w) (slot_at n w.slots) key).0 free in
      (t.0, t.1, inl t)
  grantable (inr (quarantined, recovered)) =
      let d = slot_at n w.slots in
      let q = quarantined_by d.lease_file (os_of w) d.meta key quarantined in
      (q.0, q.1, inr (rw (q.2, q.3) at recovered))

  -- The same availability is read with the flock in the caller's hand.
  pub locked_availability :
      slot_availability_locked (os_of w) (slot_at n (locked_at n w).slots) key
      ≡ slot_availability_locked (os_of w) (slot_at n w.slots) key
  unfolding slot_availability_locked
  locked_availability = rw slot_at-put_slot_self

module _ (c : Context) (n : ℕ) (key : Text) (ttl max : ℕ) (w : World) where
  decided :
      (av : Availability)
      → av ≡ slot_availability_locked (os_of w) (slot_at n w.slots) key
      → (decide_lease av.state c n key ttl av (locked_at n w)).0 ≡ lease_taken
      → Grantable c n key w
        × Granted n key ttl w (decide_lease av.state c n key ttl av (locked_at n w)).1
  decided av e h =
      let (why, g) = decide_lease-Granted c n key ttl av.state av (locked_at n w) h in
      (
        grantable c n key w (rw e at why),
        (g.0, g.1, λ m ne. g.2 m ne ∙ slot_at-put_slot_ne n m _ w.slots ne),
      )

  settled :
      (claim : Claim) (w₁ : World)
      → claim ≡ claim_taken
      → w₁ ≡ locked_at n w
      → (after_claim claim c n key ttl w₁).0 ≡ lease_taken
      → Grantable c n key w × Granted n key ttl w (after_claim claim c n key ttl w₁).1
  unfolding after_claim
  settled claim w₁ e f h = rw (e, f) (decided _ (locked_availability c n key w) (rw (e, f) at h))

  -- A claim that takes a slot for a key found its flock free and the group below the cap on slots in
  -- use; found no live lease of another key and no unreadable lease.json; found no live process of a
  -- previous consumer but this key's own residue, or has just verified and reclaimed that consumer;
  -- and it leaves the key's lease for `ttl`, the flock free again and the other slots as they were.
  pub claim_slot_for_lease-Granted :
      (claim_slot_for_lease c n key ttl max w).0 ≡ lease_taken
      → ((slot_at n w.slots).lock ≡ unlocked)
        × (0 < max → length (census_in_use (os_of w) [] n key w.slots) + 1 ≤ max)
        × Grantable c n key w
        × Granted n key ttl w (claim_slot_for_lease c n key ttl max w).1
  unfolding claim_slot_for_lease
  claim_slot_for_lease-Granted h =
      let x = claim_slot_lock_capped n max [] key w in
      let taken = after_claim_taken c n key ttl x.0 x.1 h in
      let found = claim_taken_found n max [] key w taken in
      let (why, g) = settled x.0 x.1 taken found.1 h in
      (found.0, λ pos. omega (arith, found.2 pos), why, g)
