-- ===== src/Group/Numbers.antt =====
-- Which slot numbers a group has after directories have been written.
use simpool.Common.{
  ℕ, suc, ◌+◌, ◌≤◌, ◌<◌, ◌≡◌, refl, ◌⊎◌, inl, inr, true, false, ◌&&◌, ◌||◌, List, [], ◌∷◌, arith,
  ltb, ◌==◌, if◌then◌else◌, has, length, ap, ◌∙◌, Bool-cases,
}
use simpool.Text.{Text}
use simpool.Availability.{SlotDir, LockState, unlocked, locked, unopenable}
use simpool.Group.{
  Slots, World, os_of, numbers, slot_at, put_slot, try_lock, claim_slot_lock_capped, census_in_use,
}
use simpool.Group.Slots.{Ascends}

-- A number put in its place, if it is not there.
abbrev pub with_number : ℕ → List ℕ → List ℕ
with_number n [] = n ∷ []
with_number n (m ∷ ms) =
    if m == n then n ∷ ms else if ltb n m then n ∷ m ∷ ms else m ∷ with_number n ms

abbrev pub Ascending : ℕ → List ℕ → Type 0
Ascending b [] = Unit {0}
Ascending b (n ∷ ns) = (b ≤ n) × Ascending (suc n) ns

pub numbers-Ascending : (b : ℕ) (s : Slots) → Ascends b s → Ascending b (numbers s)
numbers-Ascending b [] a = tt
numbers-Ascending b ((n, d) ∷ rest) a = (a.0, numbers-Ascending (suc n) rest a.1)

pub numbers-put_slot :
    (n : ℕ) (d : SlotDir) (s : Slots) → numbers (put_slot n d s) ≡ with_number n (numbers s)
unfolding put_slot
numbers-put_slot n d [] = refl
numbers-put_slot n d ((m, e) ∷ rest) = ground (arith, numbers-put_slot n d rest)

with_number_idempotent : (n : ℕ) (ns : List ℕ) → with_number n (with_number n ns) ≡ with_number n ns
with_number_idempotent n [] = ground arith
with_number_idempotent n (m ∷ ms) = ground (arith, with_number_idempotent n ms)

below-has : (b n : ℕ) (ns : List ℕ) → Ascending b ns → n < b → has n ns ≡ false
unfolding has
below-has b n [] a h = refl
below-has b n (m ∷ ms) a h = ground (arith, below-has (suc m) n ms a.1)

pub with_number_known :
    (b n : ℕ) (ns : List ℕ) → Ascending b ns → has n ns ≡ true → with_number n ns ≡ ns
unfolding has
with_number_known b n [] a h = cc
with_number_known b n (m ∷ ms) a h =
    ground (arith, with_number_known (suc m) n ms a.1, below-has (suc m) n ms a.1)

pub length-with_number : (n : ℕ) (ns : List ℕ) → length (with_number n ns) ≤ suc (length ns)
length-with_number n [] = omega arith
length-with_number n (m ∷ ms) = ground (arith, length-with_number n ms)

pub with_number-Ascending :
    (b n : ℕ) (ns : List ℕ) → b ≤ n → Ascending b ns → Ascending b (with_number n ns)
with_number-Ascending b n [] h a = (h, tt)
with_number-Ascending b n (m ∷ ms) h a = ground (arith, with_number-Ascending (suc m) n ms)

pub has-with_number : (n m : ℕ) (ns : List ℕ) → has m (with_number n ns) ≡ (n == m || has m ns)
unfolding has
has-with_number n m [] = ground arith
has-with_number n m (k ∷ ks) = ground (arith, has-with_number n m ks)

-- The numbers stay, or `n` is put among them.
abbrev pub AtMost : ℕ → List ℕ → List ℕ → Type 0
AtMost n ns ns' = (ns' ≡ ns) ⊎ (ns' ≡ with_number n ns)

pub AtMost-trans : (n : ℕ) (a b c : List ℕ) → AtMost n a b → AtMost n b c → AtMost n a c
AtMost-trans n a b c (inl e) (inl f) = inl (f ∙ e)
AtMost-trans n a b c (inl e) (inr f) = inr (f ∙ ap (with_number n) e)
AtMost-trans n a b c (inr e) (inl f) = inr (f ∙ e)
AtMost-trans n a b c (inr e) (inr f) = inr (f ∙ ap (with_number n) e ∙ with_number_idempotent n a)

pub put_slot-AtMost :
    (n : ℕ) (d : SlotDir) (s : Slots) → AtMost n (numbers s) (numbers (put_slot n d s))
put_slot-AtMost n d s = inr (numbers-put_slot n d s)

-- A slot whose flock is held has a directory.
pub locked-has : (n : ℕ) (s : Slots) → (slot_at n s).lock ≡ locked → has n (numbers s) ≡ true
unfolding slot_at has
locked-has n [] h = cc
locked-has n ((m, d) ∷ rest) h = ground (arith, locked-has n rest)

try_lock-AtMost :
    (lock : LockState) (n : ℕ) (w : World)
    → AtMost n (numbers w.slots) (numbers (try_lock lock n w).1.slots)
try_lock-AtMost unlocked n w = put_slot-AtMost n _ w.slots
try_lock-AtMost locked n w = put_slot-AtMost n _ w.slots
try_lock-AtMost unopenable n w = put_slot-AtMost n _ w.slots

pub claim-AtMost :
    (n max : ℕ) (mine : List ℕ) (key : Text) (w : World)
    → AtMost n (numbers w.slots) (numbers (claim_slot_lock_capped n max mine key w).1.slots)
unfolding claim_slot_lock_capped
claim-AtMost n max mine key w =
    let uses = census_in_use (os_of w) mine n key w.slots in
    elim (Bool-cases (ltb 0 max && ltb max (length uses + length mine + 1))) [
      | inl over ↦ rw (over, claim_slot_lock_capped) (inl refl)
      | inr under ↦
          rw (under, claim_slot_lock_capped) (try_lock-AtMost (slot_at n w.slots).lock n w)
    ]
