-- ===== src/Dispatch/Fresh.antt =====
-- The search for a new slot number ends at the first number that no slot has.
use simpool.Common.{
  ℕ, zero, suc, ◌+◌, ◌≤◌, ◌<◌, ◌≡◌, true, false, List, [], ◌∷◌, arith, leb, if◌then◌else◌, has,
  length, ==_iff,
}
use simpool.Dispatch.{fresh_from, fresh_number}

-- How many numbers of a list are at least `n`.
abbrev at_least : ℕ → List ℕ → ℕ
at_least n [] = 0
at_least n (x ∷ xs) = (if leb n x then 1 else 0) + at_least n xs

at_least-le-length : (n : ℕ) (xs : List ℕ) → at_least n xs ≤ length xs
at_least-le-length n [] = omega arith
at_least-le-length n (x ∷ xs) = ground (arith, at_least-le-length n xs)

at_least_mono : (n : ℕ) (xs : List ℕ) → at_least (n + 1) xs ≤ at_least n xs
at_least_mono n [] = omega arith
at_least_mono n (x ∷ xs) = ground (arith, at_least_mono n xs)

at_least-has : (n : ℕ) (xs : List ℕ) → has n xs ≡ true → at_least (n + 1) xs < at_least n xs
unfolding has
at_least-has n [] h = cc
at_least-has n (x ∷ xs) h = ground (arith, at_least-has n xs, at_least_mono n xs)

fresh_from-free : (f n : ℕ) (xs : List ℕ) → at_least n xs < f → has (fresh_from f n xs) xs ≡ false
unfolding fresh_from
fresh_from-free zero n xs h = absurd (omega arith)
fresh_from-free (suc f) n xs h = ground (arith, at_least-has n xs, fresh_from-free f (n + 1) xs)

fresh_from_least : (f n m : ℕ) (xs : List ℕ) → n ≤ m → m < fresh_from f n xs → has m xs ≡ true
unfolding fresh_from
fresh_from_least zero n m xs h k = absurd (omega arith)
fresh_from_least (suc f) n m xs h k = ground (arith, fresh_from_least f (n + 1) m xs, ==_iff n m)

-- The new number is the least one from `next` on that no resident slot has: the fuel, one more than
-- the resident slots, always suffices.
fresh_number_lem :
    (next : ℕ) (resident : List ℕ)
    → (has (fresh_number next resident) resident ≡ false)
      × ((m : ℕ) → next ≤ m → m < fresh_number next resident → has m resident ≡ true)
unfolding fresh_number
fresh_number_lem next resident = (
  fresh_from-free (suc (length resident)) next resident
      (omega (arith, at_least-le-length next resident)),
  λ m h k. fresh_from_least (suc (length resident)) next m resident h k,
)
