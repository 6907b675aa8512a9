-- ===== src/Leases/Renewal.antt =====
-- A key that has a live lease in the group gets that slot back.
use simpool.Common.{
  ℕ, suc, ◌+◌, ◌≤◌, ◌≡◌, ◌≢◌, inl, inr, true, [], ◌∷◌, some, arith, has, Bool-cases, ==_iff,
}
use simpool.Text.{Text, is_empty→nil}
use simpool.Meta.{present}
use simpool.Procs.{Os}
use simpool.Group.{Slots, World, os_of, numbers, slot_at, put_slot}
use simpool.Group.Slots.{Ascends}
use simpool.Claims.{Context, write_lease}
use simpool.Leases.{leased, is_own, sticky_slot, acquire_lease}

sticky_slot-ge :
    (os : Os) (key : Text) (b : ℕ) (s : Slots) (n : ℕ)
    → Ascends b s
    → sticky_slot os key s ≡ some n
    → b ≤ n
unfolding sticky_slot
sticky_slot-ge os key b [] n a h = cc
sticky_slot-ge os key b ((m, d) ∷ rest) n a h =
    ground (arith, sticky_slot-ge os key (suc m) rest n a.1)

sticky_slot-own :
    (os : Os) (key : Text) (b : ℕ) (s : Slots) (n : ℕ)
    → Ascends b s
    → sticky_slot os key s ≡ some n
    → is_own os key (slot_at n s).lease_file ≡ true
unfolding sticky_slot slot_at
sticky_slot-own os key b [] n a h = cc
sticky_slot-own os key b ((m, d) ∷ rest) n a h = elim (Bool-cases (is_own os key d.lease_file)) [
  | inl e ↦ ground arith
  | inr e ↦
      ground
        (arith, sticky_slot-ge os key (suc m) rest n a.1, sticky_slot-own os key (suc m) rest n a.1)
]

sticky_slot_found :
    (os : Os) (key : Text) (n : ℕ) (s : Slots)
    → has n (numbers s) ≡ true
    → is_own os key (slot_at n s).lease_file ≡ true
    → (m : ℕ) × (sticky_slot os key s ≡ some m)
unfolding sticky_slot slot_at has
sticky_slot_found os key n [] h o = cc
sticky_slot_found os key n ((m, d) ∷ rest) h o = elim (Bool-cases (is_own os key d.lease_file)) [
  | inl e ↦ (m, rw e)
  | inr e ↦
      rw e
        (sticky_slot_found os key n rest (ground (arith, ==_iff m n)) (ground (arith, ==_iff m n)))
]

-- With a key, a `ttl` and a `max` that AcquireLease accepts, and slots in ascending order, while the
-- key has a live lease in the group, AcquireLease returns a slot that it holds, as a renewal: it
-- takes no flock, kills nothing, is not refused by the cap and waits for nothing. It changes that
-- slot's lease.json alone, to the same key with a new expiry.
pub acquire_lease_renews :
    (c : Context) (key : Text) (ttl max n : ℕ) (w : World)
    → Ascends 0 w.slots
    → key ≢ []
    → ttl ≢ 0
    → max ≢ 0
    → has n (numbers w.slots) ≡ true
    → is_own (os_of w) key (slot_at n w.slots).lease_file ≡ true
    → (m : ℕ) × (is_own (os_of w) key (slot_at m w.slots).lease_file ≡ true)
      × (acquire_lease c key ttl max w ≡ (
        leased m true,
        record w {
          slots =
              put_slot m
                (record (slot_at m w.slots) {
                  lease_file = present (record { key = key; expires_at = (os_of w).now + ttl });
                })
                w.slots;
        },
      ))
unfolding acquire_lease write_lease
acquire_lease_renews c key ttl max n w a k t x h o =
    let (m, e) = sticky_slot_found (os_of w) key n w.slots h o in
    (m, sticky_slot-own (os_of w) key 0 w.slots m a e, rw e (ground (arith, is_empty→nil key)))
