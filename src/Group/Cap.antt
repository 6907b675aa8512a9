-- ===== src/Group/Cap.antt =====
-- internal/pool/usecap.go: what the cap on slots in use guarantees.
use simpool.Common.{
  ℕ, suc, ◌+◌, ◌≤◌, ◌<◌, ◌≡◌, refl, ◌≢◌, ◌⊎◌, inl, inr, ◌&&◌, List, [], ◌∷◌, arith, ltb,
  if◌then◌else◌, has, length, length-append, Bool-cases, ap,
}
use simpool.Text.{Text}
use simpool.Procs.{Os}
use simpool.Availability.{SlotDir, LockState, unlocked, locked, unopenable}
use simpool.Group.{
  Slots, World, os_of, slot_at, put_slot, Use, exempt, leased_by, in_use, use_of, use_record,
  SlotUse, census_in_use, claim_taken, claim_slot_lock_capped, try_lock,
}
use simpool.Group.Slots.{Ascends, slot_at-put_slot, put_slot-Ascends}

abbrev counts : Use → ℕ
counts exempt = 0
counts _ = 1

-- How many slots of a group are in use by anybody.
abbrev pub used : Os → Slots → ℕ
used os [] = 0
used os ((n, d) ∷ rest) = counts (use_of os [] d) + used os rest

-- How many slots of a group have a number in a list.
abbrev within : List ℕ → Slots → ℕ
within xs [] = 0
within xs ((n, d) ∷ rest) = (if has n xs then 1 else 0) + within xs rest

length-use_record : (n : ℕ) (u : Use) → length (use_record n u) ≡ counts u
length-use_record n exempt = refl
length-use_record n (leased_by l) = refl
length-use_record n in_use = refl

within-nil : (s : Slots) → within [] s ≡ 0
unfolding has
within-nil [] = refl
within-nil ((n, d) ∷ rest) = omega (arith, within-nil rest)

within-below : (b x : ℕ) (s : Slots) → Ascends b s → x < b → within (x ∷ []) s ≡ 0
unfolding has
within-below b x [] a h = refl
within-below b x ((n, d) ∷ rest) a h = ground (arith, within-below (suc n) x rest a.1)

within-one : (b x : ℕ) (s : Slots) → Ascends b s → within (x ∷ []) s ≤ 1
unfolding has
within-one b x [] a = omega arith
within-one b x ((n, d) ∷ rest) a =
    ground (arith, within-one (suc n) x rest a.1, within-below (suc n) x rest a.1)

within-cons :
    (x : ℕ) (xs : List ℕ) (s : Slots) → within (x ∷ xs) s ≤ within (x ∷ []) s + within xs s
unfolding has
within-cons x xs [] = omega arith
within-cons x xs ((n, d) ∷ rest) = ground (arith, within-cons x xs rest)

-- Numbers are distinct, so a list of numbers meets at most its length of slots.
within-le-length : (b : ℕ) (xs : List ℕ) (s : Slots) → Ascends b s → within xs s ≤ length xs
within-le-length b [] s a = omega (arith, within-nil s)
within-le-length b (x ∷ xs) s a =
    omega (arith, within-cons x xs s, within-one b x s a, within-le-length b xs s a)

used-le-census :
    (os : Os) (mine : List ℕ) (n : ℕ) (s : Slots)
    → used os s ≤ length (census_in_use os mine n [] s) + within (n ∷ mine) s
unfolding census_in_use has
used-le-census os mine n [] = omega arith
used-le-census os mine n ((k, d) ∷ rest) = ground (
  arith,
  used-le-census os mine n rest,
  length-append (use_record k (use_of os [] d)) (census_in_use os mine n [] rest),
  length-use_record k (use_of os [] d),
)

census-put_slot :
    (os : Os) (mine : List ℕ) (n : ℕ) (key : Text) (d : SlotDir) (s : Slots)
    → census_in_use os mine n key (put_slot n d s) ≡ census_in_use os mine n key s
unfolding census_in_use put_slot
census-put_slot os mine n key d [] = ground arith
census-put_slot os mine n key d ((k, e) ∷ rest) =
    ground (arith, census-put_slot os mine n key d rest)

used-put_slot :
    (os : Os) (mine : List ℕ) (n : ℕ) (d : SlotDir) (s : Slots)
    → Ascends 0 s
    → used os (put_slot n d s) ≤ length (census_in_use os mine n [] s) + length mine + 1
used-put_slot os mine n d s a =
    let t = put_slot n d s in
    omega (
      arith,
      used-le-census os mine n t,
      ap length (census-put_slot os mine n [] d s),
      within-le-length 0 (n ∷ mine) t (put_slot-Ascends 0 n d s (omega arith) a),
    )

abbrev pub locked_at : ℕ → World → World
locked_at n w = record w {
  slots = put_slot n (record (slot_at n w.slots) { lock = locked }) w.slots;
}

try_lock_taken :
    (lock : LockState) (n : ℕ) (w : World)
    → (try_lock lock n w).0 ≡ claim_taken
    → (lock ≡ unlocked) × ((try_lock lock n w).1 ≡ locked_at n w)
try_lock_taken unlocked n w h = (refl, refl)
try_lock_taken locked n w h = cc
try_lock_taken unopenable n w h = cc

-- What a claim that takes a slot finds before it: the flock free, and the census below the cap.
pub claim_taken_found :
    (n max : ℕ) (mine : List ℕ) (key : Text) (w : World)
    → (claim_slot_lock_capped n max mine key w).0 ≡ claim_taken
    → ((slot_at n w.slots).lock ≡ unlocked)
      × ((claim_slot_lock_capped n max mine key w).1 ≡ locked_at n w)
      × (0 < max → length (census_in_use (os_of w) mine n key w.slots) + length mine + 1 ≤ max)
unfolding claim_slot_lock_capped
claim_taken_found n max mine key w h =
    elim (Bool-cases (ltb 0 max && ltb max (length uses + length mine + 1))) [
      | inl over ↦ cc (rw (over, claim_slot_lock_capped) at h)
      | inr under ↦
          let t =
            try_lock_taken (slot_at n w.slots).lock n w (rw (under, claim_slot_lock_capped) at h) in
          rw (under, claim_slot_lock_capped) (t.0, t.1, λ pos. ground arith)
    ]
  where
    uses : List SlotUse
    uses = census_in_use (os_of w) mine n key w.slots

-- The other outcomes leave every slot as it reads, though a directory may have been made.
abbrev pub SameSlots : World → World → Type 0
SameSlots w w' =
    (Ascends 0 w.slots → Ascends 0 w'.slots) × ((m : ℕ) → slot_at m w'.slots ≡ slot_at m w.slots)

try_lock_else :
    (lock : LockState) (n : ℕ) (w : World)
    → ((try_lock lock n w).0 ≡ claim_taken)
      ⊎ (((try_lock lock n w).0 ≢ claim_taken) × SameSlots w (try_lock lock n w).1)
try_lock_else unlocked n w = inl refl
try_lock_else locked n w = inr (
  λ e. cc,
  (
    put_slot-Ascends 0 n _ w.slots (omega arith),
    λ m. ground (arith, slot_at-put_slot n m (slot_at n w.slots) w.slots),
  ),
)
try_lock_else unopenable n w = inr (
  λ e. cc,
  (
    put_slot-Ascends 0 n _ w.slots (omega arith),
    λ m. ground (arith, slot_at-put_slot n m (slot_at n w.slots) w.slots),
  ),
)

pub claim_else :
    (n max : ℕ) (mine : List ℕ) (key : Text) (w : World)
    → ((claim_slot_lock_capped n max mine key w).0 ≡ claim_taken)
      ⊎ (((claim_slot_lock_capped n max mine key w).0 ≢ claim_taken)
          × SameSlots w (claim_slot_lock_capped n max mine key w).1)
unfolding claim_slot_lock_capped
claim_else n max mine key w =
    elim (Bool-cases (ltb 0 max && ltb max (length uses + length mine + 1))) [
      | inl over ↦ rw (over, claim_slot_lock_capped) (inr (λ e. cc, (λ a. a, λ m. refl)))
      | inr under ↦ rw (under, claim_slot_lock_capped) (try_lock_else (slot_at n w.slots).lock n w)
    ]
  where
    uses : List SlotUse
    uses = census_in_use (os_of w) mine n key w.slots

try_lock-machine :
    (lock : LockState) (n : ℕ) (w : World) → (try_lock lock n w).1.machine ≡ w.machine
try_lock-machine unlocked n w = refl
try_lock-machine locked n w = refl
try_lock-machine unopenable n w = refl

-- A claim does nothing to the machine.
pub claim-machine :
    (n max : ℕ) (mine : List ℕ) (key : Text) (w : World)
    → (claim_slot_lock_capped n max mine key w).1.machine ≡ w.machine
unfolding claim_slot_lock_capped
claim-machine n max mine key w =
    let uses = census_in_use (os_of w) mine n key w.slots in
    elim (Bool-cases (ltb 0 max && ltb max (length uses + length mine + 1))) [
      | inl over ↦ rw (over, claim_slot_lock_capped) refl
      | inr under ↦
          rw (under, claim_slot_lock_capped) (try_lock-machine (slot_at n w.slots).lock n w)
    ]

-- Where a cap is set (`max` above 0) and the slots are in ascending order, a claim that takes a slot
-- for the keyless caller found its flock free, holds it now, changes no other slot, and leaves no
-- more than `max` slots of the group in use by anybody, itself and the caller's other slots included.
pub claim_within_cap :
    (n max : ℕ) (mine : List ℕ) (w : World)
    → 0 < max
    → Ascends 0 w.slots
    → (claim_slot_lock_capped n max mine [] w).0 ≡ claim_taken
    → let w' = (claim_slot_lock_capped n max mine [] w).1 in
      ((slot_at n w.slots).lock ≡ unlocked)
      × ((slot_at n w'.slots).lock ≡ locked)
      × ((m : ℕ) → m ≢ n → slot_at m w'.slots ≡ slot_at m w.slots)
      × (used (os_of w) w'.slots ≤ max)
claim_within_cap n max mine w pos a h =
    let (free, e, cap) = claim_taken_found n max mine [] w h in
    rw e (
      free,
      rw slot_at-put_slot (ground arith),
      λ m ne. rw slot_at-put_slot (ground arith),
      omega (
        arith,
        cap pos,
        used-put_slot (os_of w) mine n (record (slot_at n w.slots) { lock = locked }) w.slots a,
      ),
    )
