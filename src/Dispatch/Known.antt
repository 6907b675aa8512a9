-- ===== src/Dispatch/Known.antt =====
-- The orders of dispatchOrder name slots of the group only.
use simpool.Common.{
  ℕ, ◌≡◌, inl, inr, Bool, true, not, List, [], ◌∷◌, ◌++◌, arith, has, All, Bool-cases, keep,
}
use simpool.Common.Sorting.{sort_by-All}
use simpool.Text.{Text}
use simpool.Group.{Slots, numbers}
use simpool.Dispatch.{dispatch_order, serves, leaner, staler}

pub known-All :
    (ns ms : List ℕ) → ((m : ℕ) → has m ms ≡ true → has m ns ≡ true) → All (λ n. has n ns ≡ true) ms
unfolding has
known-All ns [] h = tt
known-All ns (m ∷ ms) h = (h m (ground arith), known-All ns ms (λ k g. h k (ground arith)))

keep-All : (P : ℕ → Type 0) (p : ℕ → Bool) (ns : List ℕ) → All P ns → All P (keep p ns)
unfolding keep
keep-All P p [] a = tt
keep-All P p (n ∷ ns) a = elim (Bool-cases (p n)) [
  | inl e ↦ rw (e, keep) (a.0, keep-All P p ns a.1)
  | inr e ↦ rw (e, keep) (keep-All P p ns a.1)
]

pub append-All : (P : ℕ → Type 0) (ns ms : List ℕ) → All P ns → All P ms → All P (ns ++ ms)
append-All P [] ms a b = b
append-All P (n ∷ ns) ms a b = (a.0, append-All P ns ms a.1 b)

pub dispatch_order-known :
    (want : List Text) (s : Slots)
    → let order = dispatch_order want s in
      All (λ n. has n (numbers s) ≡ true) order.0 × All (λ n. has n (numbers s) ≡ true) order.1
unfolding dispatch_order
dispatch_order-known want s =
    let P : ℕ → Type 0 = λ n. has n (numbers s) ≡ true in
    let here = known-All (numbers s) (numbers s) (λ m h. h) in
    (
      sort_by-All (leaner s want) P (keep (serves s want) (numbers s))
          (keep-All P (serves s want) (numbers s) here),
      sort_by-All (staler s) P (keep (λ n. not (serves s want n)) (numbers s))
          (keep-All P (λ n. not (serves s want n)) (numbers s) here),
    )
