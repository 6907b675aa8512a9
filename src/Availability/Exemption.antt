-- ===== src/Availability/Exemption.antt =====
-- Who may be handed a slot on which processes of a previous consumer still live.
use simpool.Common.{◌≡◌, refl, ◌≢◌, ◌⊎◌, true, [], arith, ◌↔◌}
use simpool.Text.{Text, text_eq_iff, is_empty→nil}
use simpool.Meta.{
  Meta, Lease, LeaseFile, absent, unreadable, present, no_lease, lease_alive, lease_mode,
}
use simpool.Procs.{Os}
use simpool.Poison.{PoisonReason, not_poisoned, poisoned, check_poison}
use simpool.Availability.{
  SlotDir, slot_free, own_lease_residue, lease_owner, lease_of, availability_of, availability_by,
  slot_availability_locked, is_consumer_residue,
}

-- The conditions under which a slot is free for `for_key`: its lease.json can be read, no other
-- key has a live lease on it, and it is either clean or carries nothing but live processes that the
-- session of that very key, in `lease` mode, left behind.
abbrev pub TakeableBy : LeaseFile → Os → Meta → Text → Type 0
TakeableBy file os m for_key =
    (file ≢ unreadable)
    × (lease_alive os.now (lease_of file) ≡ true → (lease_of file).key ≡ for_key)
    × (((check_poison os m).reason ≡ not_poisoned)
        ⊎ ((m.mode ≡ lease_mode)
            × (for_key ≢ [])
            × (lease_owner m (lease_of file) ≡ for_key)
            × (is_consumer_residue (check_poison os m).reason ≡ true)))

abbrev pub Takeable : Os → SlotDir → Text → Type 0
Takeable os s for_key = TakeableBy s.lease_file os s.meta for_key

own_lease_residue_iff :
    (m : Meta) (l : Lease) (r : PoisonReason) (key : Text)
    → (own_lease_residue m l r key ≡ true) ↔ (
        (m.mode ≡ lease_mode)
        × (key ≢ [])
        × (lease_owner m l ≡ key)
        × (is_consumer_residue r ≡ true))
unfolding own_lease_residue
own_lease_residue_iff m l r key = (
  λ h.
      ground
        (arith, text_eq_iff m.mode lease_mode, text_eq_iff l.key key, text_eq_iff m.lease_key key),
  λ h. ground (
    arith,
    text_eq_iff m.mode lease_mode,
    text_eq_iff l.key key,
    text_eq_iff m.lease_key key,
    is_empty→nil key,
  ),
)

availability_of-free :
    (os : Os) (m : Meta) (l : Lease) (key : Text)
    → ((availability_of os m l key).state ≡ slot_free) ↔ (
        (lease_alive os.now l ≡ true → l.key ≡ key)
        × (((check_poison os m).reason ≡ not_poisoned)
            ⊎ (own_lease_residue m l (check_poison os m).reason key ≡ true)))
unfolding availability_of
availability_of-free os m l key =
    (λ h. ground (arith, text_eq_iff l.key key), λ h. ground (arith, text_eq_iff l.key key))

availability_by-free :
    (file : LeaseFile) (os : Os) (m : Meta) (key : Text)
    → ((availability_by file os m key).state ≡ slot_free) ↔ TakeableBy file os m key
unfolding availability_by
availability_by-free absent os m key = (
  λ h. ground (
    arith,
    (availability_of-free os m no_lease key).0 h,
    own_lease_residue_iff m no_lease (check_poison os m).reason key,
  ),
  λ h.
      (availability_of-free os m no_lease key).1
        (ground (arith, own_lease_residue_iff m no_lease (check_poison os m).reason key)),
)
availability_by-free unreadable os m key = (λ h. cc, λ h. absurd (h.0 refl))
availability_by-free (present l) os m key = (
  λ h. ground (
    arith,
    (availability_of-free os m l key).0 h,
    own_lease_residue_iff m l (check_poison os m).reason key,
  ),
  λ h.
      (availability_of-free os m l key).1
        (ground (arith, own_lease_residue_iff m l (check_poison os m).reason key)),
)

-- A slot whose flock is held by the caller is free for a key, or for the keyless caller, exactly if
-- it is takeable: an unreadable lease.json, another key's live lease, a live process group, a
-- check that failed, and live processes that are not this key's own residue each refuse it.
pub slot_availability_locked-free :
    (os : Os) (s : SlotDir) (key : Text)
    → ((slot_availability_locked os s key).state ≡ slot_free) ↔ Takeable os s key
unfolding slot_availability_locked
slot_availability_locked-free os s key = availability_by-free s.lease_file os s.meta key

-- Two different keys are never both let onto a slot on which a previous consumer's processes live.
residue_one_key :
    (os : Os) (s : SlotDir) (k₁ k₂ : Text)
    → poisoned (check_poison os s.meta).reason ≡ true
    → (slot_availability_locked os s k₁).state ≡ slot_free
    → (slot_availability_locked os s k₂).state ≡ slot_free
    → k₁ ≡ k₂
residue_one_key os s k₁ k₂ live f₁ f₂ = ground (
  arith,
  (slot_availability_locked-free os s k₁).0 f₁,
  (slot_availability_locked-free os s k₂).0 f₂,
)
