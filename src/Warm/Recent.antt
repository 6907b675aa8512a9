-- ===== src/Warm/Recent.antt =====
-- Which simulators the ceiling of `reap --warm` shuts down.
use simpool.Common.{
  ℕ, zero, suc, ◌≤◌, ◌≡◌, ◌≢◌, refl, ◌⊎◌, inl, inr, Bool, false, List, [], ◌∷◌, ◌++◌, Option, none,
  some, arith, length, All, Bool-cases, has, ap,
}
use mathlib.Core.List.{Perm}
use simpool.Common.Sorting.{sort_by, IsSorted, sort_by-perm, sort_by-IsSorted}
use simpool.Meta.{Meta}
use simpool.Poison.Recovery.{Act, shut_down}
use simpool.Availability.{LockState, unlocked, locked, unopenable}
use simpool.Group.{World, numbers, slot_at, unlock}
use simpool.Claims.{Context}
use simpool.Reap.{booted_state}
use simpool.Reap.Idle.{OthersApart}
use simpool.Warm.Bounded.{AddsUpTo, AddsUpTo-weaken, AddsUpTo-from, AddsUpTo-trans}
use simpool.Warm.{
  WarmCandidate, more_recent_use, classify_for, shut_next, take_warm, drop_warm, warm_candidates,
  shut_classified, shut_if, shut_excess, enforce_warm_cap,
}

take-append-drop : (n : ℕ) (xs : List WarmCandidate) → take_warm n xs ++ drop_warm n xs ≡ xs
unfolding take_warm drop_warm
take-append-drop zero xs = refl
take-append-drop (suc n) [] = refl
take-append-drop (suc n) (x ∷ xs) = ap (◌∷◌ x) (take-append-drop n xs)

length-take : (n : ℕ) (xs : List WarmCandidate) → length (take_warm n xs) ≤ n
unfolding take_warm
length-take zero xs = omega arith
length-take (suc n) [] = omega arith
length-take (suc n) (x ∷ xs) = omega (arith, length-take n xs)

full-take : (n : ℕ) (xs : List WarmCandidate) → drop_warm n xs ≢ [] → length (take_warm n xs) ≡ n
unfolding take_warm drop_warm
full-take zero xs h = refl
full-take (suc n) [] h = absurd (h refl)
full-take (suc n) (x ∷ xs) h = omega (arith, full-take n xs h)

-- Every one of `ys` was last used no later than every one of `xs`.
abbrev pub UsedBefore : List WarmCandidate → List WarmCandidate → Type 0
UsedBefore ys xs = All (λ x. All (λ y. y.meta.last_used ≤ x.meta.last_used) ys) xs

older_of :
    (x : WarmCandidate) (ys : List WarmCandidate)
    → All (λ y. more_recent_use y x ≡ false) ys
    → All (λ y. y.meta.last_used ≤ x.meta.last_used) ys
older_of x [] h = tt
older_of x (y ∷ ys) h = (ground (arith, h.0), older_of x ys h.1)

All-drop {κ} :
    (P : WarmCandidate → Type κ) (n : ℕ) (xs : List WarmCandidate)
    → All P xs
    → All P (drop_warm n xs)
unfolding drop_warm
All-drop P zero xs h = h
All-drop P (suc n) [] h = h
All-drop P (suc n) (x ∷ xs) h = All-drop P n xs h.1

split-UsedBefore :
    (n : ℕ) (xs : List WarmCandidate)
    → IsSorted more_recent_use xs
    → UsedBefore (drop_warm n xs) (take_warm n xs)
unfolding take_warm drop_warm
split-UsedBefore zero xs s = tt
split-UsedBefore (suc n) [] s = tt
split-UsedBefore (suc n) (x ∷ xs) s = (
  All-drop (λ y. y.meta.last_used ≤ x.meta.last_used) n xs (older_of x xs s.0),
  split-UsedBefore n xs s.1,
)

sorted : (xs : List WarmCandidate) → IsSorted more_recent_use (sort_by more_recent_use xs)
sorted =
    sort_by-IsSorted more_recent_use (λ a b h. ground (arith, h))
      (λ a b c g h. ground (arith, g, h))

-- An act that the ceiling does at the turn of slot `n` in the world `v`: outside a dry run it shuts
-- down the simulator that the slot has there, if the flock is free and the slot counts as booted and
-- free.
abbrev pub ShutsAt : Context → Bool → ℕ → World → Act → Type 0
ShutsAt c dry_run n v (shut_down u) =
    (dry_run ≡ false)
    × ((slot_at n v.slots).lock ≡ unlocked)
    × ((m : Meta) × (classify_for booted_state c n v ≡ some m) × (m.udid ≡ u))
ShutsAt c dry_run n v _ = ⊥

module _ (c : Context) (dry_run : Bool) where
  -- The second pass over `xs` from `w` comes to the turn of `x` in the world `v`.
  abbrev pub Turn : List WarmCandidate → World → WarmCandidate → World → Type 0
  Turn [] w x v = ⊥
  Turn (y ∷ ys) w x v =
      ((x ≡ y) × (v ≡ c.sleep w)) ⊎ Turn ys (shut_next c dry_run y.number (c.sleep w)) x v

  -- An act of the second pass over `xs` from `w`.
  abbrev pub Shuts : List WarmCandidate → World → Act → Type 0
  Shuts xs w a =
      (x : WarmCandidate) × ((v : World) × Turn xs w x v × ShutsAt c dry_run x.number v a)

  shut_classified-One :
      (n : ℕ) (found : Option Meta) (v : World)
      → (slot_at n v.slots).lock ≡ unlocked
      → classify_for booted_state c n v ≡ found
      → AddsUpTo 1 (ShutsAt c dry_run n v) v (shut_classified c dry_run n found v)
  unfolding unlock
  shut_classified-One n none v free e = ([], refl, tt, omega arith)
  shut_classified-One n (some m) v free e = elim (Bool-cases dry_run) [
    | inl d ↦ rw d ([], refl, tt, omega arith)
    | inr d ↦ rw d (shut_down m.udid ∷ [], refl, ((refl, free, (m, e, refl)), tt), omega arith)
  ]

  shut_if-One :
      (lock : LockState) (n : ℕ) (v : World)
      → (slot_at n v.slots).lock ≡ lock
      → AddsUpTo 1 (ShutsAt c dry_run n v) v (shut_if c dry_run lock n v)
  shut_if-One unlocked n v e = shut_classified-One n _ v e refl
  shut_if-One locked n v e = ([], refl, tt, omega arith)
  shut_if-One unopenable n v e = ([], refl, tt, omega arith)

  shut_next-One :
      (n : ℕ) (v : World) → AddsUpTo 1 (ShutsAt c dry_run n v) v (shut_next c dry_run n v)
  shut_next-One n v = elim (Bool-cases (has n (numbers v.slots))) [
    | inl e ↦ rw e (shut_if-One (slot_at n v.slots).lock n v refl)
    | inr e ↦ rw e ([], refl, tt, omega arith)
  ]

  module _ (others : OthersApart c) where
    shut_excess-Shuts :
        (xs : List WarmCandidate) (w : World)
        → AddsUpTo (length xs) (Shuts xs w) w (shut_excess c dry_run xs w)
    unfolding shut_excess
    shut_excess-Shuts [] w = ([], refl, tt, omega arith)
    shut_excess-Shuts (x ∷ xs) w =
        let w₁ = c.sleep w in
        let next = shut_next c dry_run x.number w₁ in
        let P = Shuts (x ∷ xs) w in
        let one =
          AddsUpTo-weaken 1 (ShutsAt c dry_run x.number w₁) P w₁ next
            (λ a p. (x, (w₁, inl (refl, refl), p))) (shut_next-One x.number w₁) in
        let more =
          AddsUpTo-weaken (length xs) (Shuts xs next) P next (shut_excess c dry_run xs next)
            (λ a (y, (v, turn, p)). (y, (v, inr turn, p))) (shut_excess-Shuts xs next) in
        AddsUpTo-from P w w₁ (shut_excess c dry_run xs next) (suc (length xs)) (others w) (
          AddsUpTo-trans P w₁ next (shut_excess c dry_run xs next) 1 (length xs) (suc (length xs))
            (omega arith) one more)

    -- The ceiling splits the slots that it finds free and booted into `kept` and `excess`: at most
    -- `warm` are kept, exactly `warm` if any is left over, and each of the others was last used no
    -- later than each of these. Nothing is done to the machine but at the turn of one of the
    -- `excess`, at most once for each, in the world in which the pass comes to it: outside a dry run,
    -- where the flock is free and the slot is still free and booted, its simulator is shut down. This
    -- holds where what other processes do is kept apart from the acts of this one.
    pub enforce_warm_cap-Shuts :
        (warm : ℕ) (w : World)
        → (kept excess : List WarmCandidate) × Perm
            (kept ++ excess)
            (warm_candidates c dry_run (numbers w.slots) w)
          × (length kept ≤ warm)
          × (excess ≢ [] → length kept ≡ warm)
          × UsedBefore excess kept
          × AddsUpTo (length excess) (Shuts excess w) w (enforce_warm_cap c dry_run warm w)
    unfolding enforce_warm_cap
    enforce_warm_cap-Shuts warm w =
        let free = warm_candidates c dry_run (numbers w.slots) w in
        let ranked = sort_by more_recent_use free in
        (
          take_warm warm ranked,
          drop_warm warm ranked,
          rw (take-append-drop warm ranked) (sort_by-perm more_recent_use free),
          length-take warm ranked,
          full-take warm ranked,
          split-UsedBefore warm ranked (sorted free),
          shut_excess-Shuts (drop_warm warm ranked) w,
        )
