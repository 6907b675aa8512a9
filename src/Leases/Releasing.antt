-- ===== src/Leases/Releasing.antt =====
-- What ReleaseLease and CleanupExpiredLease remove.
use simpool.Common.{
  ℕ, suc, ◌≡◌, refl, ◌≢◌, ◌↔◌, Bool, true, false, not, ◌&&◌, List, [], ◌∷◌, none, some, arith,
  if◌then◌else◌, has,
}
use simpool.Text.{Text, text_eq, is_empty, is_empty→nil}
use simpool.Meta.{Lease, LeaseFile, absent, unreadable, present, lease_alive}
use simpool.Procs.{Os}
use simpool.Availability.{SlotDir}
use simpool.Group.{Slots, numbers, slot_at}
use simpool.Group.Slots.{Ascends, slot_at_below}
use simpool.Leases.{release_one, release_lease, cleanup_expired_lease}

-- What a release by `key` makes of lease.json.
abbrev pub released_file : Text → LeaseFile → LeaseFile
released_file key absent = absent
released_file key unreadable = unreadable
released_file key (present l) = if text_eq l.key key then absent else present l

abbrev is_unreadable : LeaseFile → Bool
is_unreadable unreadable = true
is_unreadable _ = false

abbrev holds_key : Text → LeaseFile → Bool
holds_key key (present l) = text_eq l.key key
holds_key key _ = false

release_one_lem :
    (key : Text) (d : SlotDir)
    → key ≢ []
    → release_one key d ≡ (
      record d { lease_file = released_file key d.lease_file },
      holds_key key d.lease_file,
      is_unreadable d.lease_file,
    )
unfolding release_one
release_one_lem key d k = ground (arith, is_empty→nil key)

-- What a release by `key` does to the group, seen at slot `n`.
abbrev pub Releases : Text → ℕ → Slots → Slots × List ℕ × List ℕ → Type 0
Releases key n s out =
    (numbers out.0 ≡ numbers s)
    × (slot_at n out.0
        ≡ record (slot_at n s) { lease_file = released_file key (slot_at n s).lease_file })
    × (has n out.1 ≡ holds_key key (slot_at n s).lease_file)
    × (has n out.2 ≡ is_unreadable (slot_at n s).lease_file)

release_lease_from :
    (key : Text) (n b : ℕ) (s : Slots)
    → key ≢ []
    → Ascends b s
    → Releases key n s (release_lease key s)
unfolding release_lease slot_at has
release_lease_from key n b [] k a = (refl, refl, refl, refl)
release_lease_from key n b ((m, d) ∷ rest) k a =
    let ih = release_lease_from key n (suc m) rest k a.1 in
    ground (arith, ih, release_one_lem key d k, slot_at_below (suc m) n rest a.1)

-- Releasing a key removes its lease, live or not, from every slot of the group that has it, and
-- changes nothing else; it reports exactly the slots that held the key's lease and, as failures,
-- exactly those whose lease.json cannot be read, which it leaves.
pub release_lease-Releases :
    (key : Text) (n : ℕ) (s : Slots)
    → key ≢ []
    → Ascends 0 s
    → Releases key n s (release_lease key s)
release_lease-Releases key n s k a = release_lease_from key n 0 s k a

-- CleanupExpiredLease removes exactly a lease that has a key and has expired; it never removes a
-- live one, and does not guess about one that it cannot read.
cleanup_expired_lease_lem :
    (os : Os) (d : SlotDir)
    → ((cleanup_expired_lease os d ≡ none) ↔ (d.lease_file ≡ unreadable))
      × ((l : Lease)
          → d.lease_file ≡ present l
          → cleanup_expired_lease os d ≡ (
              if not (is_empty l.key) && not (lease_alive os.now l)
              then some (record d { lease_file = absent }, true)
              else some (d, false)))
unfolding cleanup_expired_lease
cleanup_expired_lease_lem os d = ((λ h. ground arith, λ h. ground arith), λ l h. ground arith)
