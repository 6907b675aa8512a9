-- ===== src/Poison/PidSets.antt =====
-- samePIDSet compares two lists of pids as multisets.
use simpool.Common.{
  ℕ, suc, ◌-◌, ◌≤◌, ◌<◌, ◌≡◌, refl, ◌↔◌, Bool, true, List, [], ◌∷◌, arith, ◌==◌, if◌then◌else◌, all,
  length,
}
use simpool.Poison.Recovery.{count, drain, lower, same_pid_set}

-- Two lists hold the same pids, as often.
abbrev pub SamePids : List ℕ → List ℕ → Type 0
SamePids a b = (p : ℕ) → count p a ≡ count p b

abbrev remove : ℕ → List ℕ → List ℕ
remove n [] = []
remove n (x ∷ xs) = if x == n then xs else x ∷ remove n xs

count-remove :
    (n q : ℕ) (xs : List ℕ)
    → count q (remove n xs) ≡ (if q == n then count q xs - 1 else count q xs)
unfolding count
count-remove n q [] = ground arith
count-remove n q (x ∷ xs) = ground (arith, count-remove n q xs)

length-remove : (n : ℕ) (xs : List ℕ) → 0 < count n xs → length xs ≡ suc (length (remove n xs))
unfolding count
length-remove n [] h = absurd (omega arith)
length-remove n (x ∷ xs) h = ground (arith, length-remove n xs)

drain-le : (seen : ℕ → ℕ) (ps : List ℕ) → drain seen ps ≡ true → (q : ℕ) → count q ps ≤ seen q
unfolding drain count
drain-le seen [] h q = omega arith
drain-le seen (p ∷ ps) h q =
    ground (arith, drain-le (lower seen p) ps, drain-le (lower seen p) ps (ground arith) q)

le-drain : (seen : ℕ → ℕ) (ps : List ℕ) → ((q : ℕ) → count q ps ≤ seen q) → drain seen ps ≡ true
unfolding drain count
le-drain seen [] h = refl
le-drain seen (p ∷ ps) h =
    ground (arith, h p, le-drain (lower seen p) ps (λ q. ground (arith, h q)))

-- Sublists by count of the same length agree in every count.
count-le_of_length :
    (a b : List ℕ)
    → length a ≡ length b
    → ((q : ℕ) → count q b ≤ count q a)
    → (q : ℕ) → count q a ≡ count q b
unfolding count
count-le_of_length [] [] e h q = refl
count-le_of_length (x ∷ a) [] e h q = absurd (omega arith)
count-le_of_length a (y ∷ b) e h q = ground (
  arith,
  h q,
  h y,
  count-remove y q a,
  length-remove y a,
  count-le_of_length (remove y a) b (ground (arith, h y, length-remove y a))
      (λ r. ground (arith, h r, count-remove y r a)) q,
)

length-eq_of_count : (a b : List ℕ) → SamePids a b → length a ≡ length b
unfolding count
length-eq_of_count [] [] h = refl
length-eq_of_count [] (y ∷ b) h = ground (arith, h y)
length-eq_of_count (x ∷ a) b h = ground (
  arith,
  h x,
  length-remove x b,
  length-eq_of_count a (remove x b) (λ q. ground (arith, h q, count-remove x q b)),
)

-- samePIDSet holds exactly when the two lists have every pid equally often, in whatever order.
pub same_pid_set_iff : (a b : List ℕ) → (same_pid_set a b ≡ true) ↔ SamePids a b
unfolding same_pid_set
same_pid_set_iff a b = (
  λ h. count-le_of_length a b (ground arith) (drain-le (λ p. count p a) b (ground arith)),
  λ h.
      ground
        (arith, length-eq_of_count a b h, le-drain (λ p. count p a) b (λ q. omega (arith, h q))),
)

-- What holds of every pid of a list holds of every pid counted in it.
pub all_of_count : (f : ℕ → Bool) (a : List ℕ) (p : ℕ) → all f a ≡ true → 0 < count p a → f p ≡ true
unfolding all count
all_of_count f [] p h c = absurd (omega arith)
all_of_count f (x ∷ xs) p h c = ground (arith, all_of_count f xs p)
