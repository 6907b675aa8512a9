-- ===== src/Acquire/Walking.antt =====
-- internal/pool/slot.go: what the passes over a group's slots keep true.
use simpool.Common.{
  ℕ, zero, suc, ◌+◌, ◌≤◌, ◌<◌, ◌≡◌, refl, ◌⊎◌, inl, inr, Bool, true, false, List, [], ◌∷◌, ◌++◌,
  arith, has, All, length, length-append, Bool-cases,
}
use simpool.Group.{World}
use simpool.Claims.{Context}
use simpool.Claims.Safety.{Grantable}
use simpool.Acquire.{Walk, start_of, take, take_each, take_new, done, then_take}
use simpool.Acquire.Taking.{Holds, Distinct, Distinct-append, Took, take-Holds}
use simpool.Dispatch.{fresh_number}

All-append :
    {A : Type 0} (P : A → Type 0) (xs : List A) (x : A) → All P xs → P x → All P (xs ++ x ∷ [])
All-append P [] x a p = (p, tt)
All-append P (y ∷ xs) x a p = (a.0, All-append P xs x a.1 p)

-- The states that an attempt goes through: each `take` while it still wants a slot leads to the
-- next.
pub data Trace (c : Context) (count max : ℕ) (k₀ : Walk) : Walk → Type 0 where
  begun : Trace c count max k₀ k₀
  taking :
      {k : Walk} (n : ℕ)
      → Trace c count max k₀ k
      → done count k ≡ false
      → Trace c count max k₀ (take c max n k).1

-- One of these takes added slot `n`, and in the world in which it began the slot could be given to
-- the keyless caller.
abbrev pub Given : (c : Context) (count max : ℕ) (k₀ k : Walk) → Trace c count max k₀ k → ℕ → Type 0
Given c count max k₀ k begun n = ⊥
Given c count max k₀ k (taking {k = k₁} m t more) n =
    ((n ≡ m) × ((take c max m k₁).1.acquired ≡ k₁.acquired ++ m ∷ []) × Grantable c m [] k₁.world)
    ⊎ Given c count max k₀ k₁ t n

-- The slots that a state holds were all taken on the way to it, when they could be given.
abbrev pub AllGiven : Context → ℕ → ℕ → World → Walk → Type 0
AllGiven c count max w k =
    (t : Trace c count max (start_of w) k) × All (Given c count max (start_of w) k t) k.acquired

-- The state of an attempt that began in `w`.
abbrev pub Sound : Context → ℕ → ℕ → World → Walk → Type 0
Sound c count max w k =
    Holds w k.acquired k.world
    × Distinct k.acquired
    × (length k.acquired ≤ count)
    × AllGiven c count max w k

-- What the first part leaves, and the second keeps, holds after both.
pub then_take_keeps :
    (P : Walk → Type 0) (x : Bool × Walk) (f : Walk → Bool × Walk)
    → P x.1
    → ((k : Walk) → P k → P (f k).1)
    → P (then_take x f).1
then_take_keeps P (true, k) f p h = h k p
then_take_keeps P (false, k) f p h = p

module _ (c : Context) (count max : ℕ) (w : World) where
  -- A take keeps what the earlier ones gave, and gives the slot that it adds.
  taking-Given :
      (n : ℕ) (k : Walk) (t : Trace c count max (start_of w) k) (more : done count k ≡ false)
      (xs : List ℕ)
      → All (Given c count max (start_of w) k t) xs
      → All (Given c count max (start_of w) (take c max n k).1 (taking n t more)) xs
  taking-Given n k t more [] a = tt
  taking-Given n k t more (x ∷ xs) a = (inr a.0, taking-Given n k t more xs a.1)

  Took-Given :
      (n : ℕ) (k : Walk) (more : done count k ≡ false)
      → AllGiven c count max w k
      → Took c n k (take c max n k).1
      → AllGiven c count max w (take c max n k).1
  Took-Given n k more (t, a) (inl e) =
      (taking n t more, rw e (taking-Given n k t more k.acquired a))
  Took-Given n k more (t, a) (inr (e, fresh, g)) = (
    taking n t more,
    rw e (
        All-append (Given c count max (start_of w) (take c max n k).1 (taking n t more)) k.acquired
          n (taking-Given n k t more k.acquired a) (inl (refl, e, g))),
  )

  Took-Distinct :
      (n : ℕ) (k k' : Walk)
      → Distinct k.acquired
      → length k.acquired < count
      → Took c n k k'
      → Distinct k'.acquired × (length k'.acquired ≤ count)
  Took-Distinct n k k' d lt (inl e) = rw e (d, omega arith)
  Took-Distinct n k k' d lt (inr (e, fresh, g)) = (
    rw e (Distinct-append k.acquired n d fresh),
    rw e (omega (arith, length-append k.acquired (n ∷ []))),
  )

  pub take-Sound :
      (n : ℕ) (k : Walk)
      → Sound c count max w k
      → done count k ≡ false
      → Sound c count max w (take c max n k).1
  unfolding done
  take-Sound n k s d =
      let t = take-Holds c max n w k s.0 in
      let (d₁, le) = Took-Distinct n k (take c max n k).1 s.1 (ground arith) t.1 in
      (t.0, d₁, le, Took-Given n k d s.3 t.1)

  pub take_each-Sound :
      (ns : List ℕ) (k : Walk)
      → Sound c count max w k
      → Sound c count max w (take_each c count max ns k).1
  unfolding take_each
  take_each-Sound [] k s = s
  take_each-Sound (n ∷ ns) k s = elim (Bool-cases (done count k)) [
    | inl d ↦ rw (d, take_each) s
    | inr d ↦ elim (Bool-cases (has n k.acquired)) [
      | inl e ↦ rw (d, e, take_each) (take_each-Sound ns k s)
      | inr e ↦
          rw (d, e, take_each)
            (then_take_keeps (Sound c count max w) (take c max n k) (take_each c count max ns)
              (take-Sound n k s d) (take_each-Sound ns))
    ]
  ]

  pub take_new-Sound :
      (room next : ℕ) (resident : List ℕ) (k : Walk)
      → Sound c count max w k
      → Sound c count max w (take_new c count max room next resident k).1
  unfolding take_new
  take_new-Sound zero next resident k s = s
  take_new-Sound (suc room) next resident k s = elim (Bool-cases (done count k)) [
    | inl d ↦ rw (d, take_new) s
    | inr d ↦
        let n = fresh_number next resident in
        rw (d, take_new)
          (then_take_keeps (Sound c count max w) (take c max n k)
            (take_new c count max room (n + 1) (n ∷ resident)) (take-Sound n k s d)
            (take_new-Sound room (n + 1) (n ∷ resident)))
  ]
