-- ===== src/Availability/Views.antt =====
-- The keyless view (`simpool status`) against what the claiming paths decide.
use simpool.Common.{◌≡◌, ◌↔◌, true, [], arith}
use simpool.Text.{Text, text_eq_iff}
use simpool.Meta.{Meta, Lease, LeaseFile, absent, unreadable, present, no_lease, lease_alive}
use simpool.Procs.{Os}
use simpool.Availability.{
  SlotDir, LockState, unlocked, locked, unopenable, slot_free, slot_quarantined, lease_owner,
  lease_of, own_lease_residue, availability_of, availability_by, availability_if, slot_availability,
  slot_availability_locked,
}
use simpool.Availability.Exemption.{slot_availability_locked-free}

keyless_locked :
    (os : Os) (s : SlotDir) (key : Text)
    → (slot_availability_locked os s []).state ≡ slot_free
    → (slot_availability_locked os s key).state ≡ slot_free
unfolding lease_alive
keyless_locked os s key h =
    let t = (slot_availability_locked-free os s []).0 h in
    (slot_availability_locked-free os s key).1 (ground (arith, t))

keyless_if :
    (lock : LockState) (os : Os) (s : SlotDir) (key : Text)
    → (availability_if lock os s []).state ≡ slot_free
    → (availability_if lock os s key).state ≡ slot_free
unfolding availability_if
keyless_if unlocked os s key h = keyless_locked os s key h
keyless_if locked os s key h = cc
keyless_if unopenable os s key h = cc

-- What `status` shows as free is free for every key that may come to claim it.
keyless_free :
    (os : Os) (s : SlotDir) (key : Text)
    → (slot_availability os s []).state ≡ slot_free
    → (slot_availability os s key).state ≡ slot_free
unfolding slot_availability
keyless_free os s key h = keyless_if s.lock os s key h

residue_owner :
    (os : Os) (m : Meta) (l : Lease)
    → (availability_of os m l []).state ≡ slot_quarantined
    → ((availability_of os m l []).own_lease_residue ≡ true)
      ↔ ((availability_of os m l (lease_owner m l)).state ≡ slot_free)
unfolding availability_of lease_alive own_lease_residue
residue_owner os m l h = (
  λ r. ground (arith, text_eq_iff l.key (lease_owner m l)),
  λ r. ground (arith, text_eq_iff l.key (lease_owner m l)),
)

residue_owner_by :
    (file : LeaseFile) (os : Os) (m : Meta)
    → (availability_by file os m []).state ≡ slot_quarantined
    → ((availability_by file os m []).own_lease_residue ≡ true)
      ↔ ((availability_by file os m (lease_owner m (lease_of file))).state ≡ slot_free)
unfolding availability_by
residue_owner_by absent os m h = residue_owner os m no_lease h
residue_owner_by unreadable os m h = cc
residue_owner_by (present l) os m h = residue_owner os m l h

-- On a slot that the keyless view shows as quarantined, the flag that one key can still claim it is
-- set exactly if a claim by that key, the slot's last recorded owner, finds the slot free.
residue_flag_iff :
    (os : Os) (s : SlotDir)
    → (slot_availability_locked os s []).state ≡ slot_quarantined
    → ((slot_availability_locked os s []).own_lease_residue ≡ true) ↔ (
        (slot_availability_locked os s (lease_owner s.meta (lease_of s.lease_file))).state
        ≡ slot_free)
unfolding slot_availability_locked
residue_flag_iff os s h = residue_owner_by s.lease_file os s.meta h
