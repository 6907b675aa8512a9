-- ===== src/Simctl/Resolved.antt =====
-- Which runtime a version resolves to.
use simpool.Common.{
  ◌≡◌, refl, ◌⊎◌, inl, inr, true, false, ◌&&◌, List, [], ◌∷◌, Option, none, some, arith, All,
  Bool-cases, ap, ◌∙◌,
}
use simpool.Text.{Text, text_eq, text_eq_iff}
use simpool.Simctl.{Runtime, matches, best_runtime, resolve_runtime_by_version}

abbrev pub Among : Runtime → List Runtime → Type 0
Among r [] = ⊥
Among r (x ∷ rs) = (r ≡ x) ⊎ Among r rs

-- None of the runtimes serves the version.
abbrev pub NoneMatches : Text → List Runtime → Type 0
NoneMatches v rs = All (λ r. matches v r ≡ false) rs

-- A runtime of the list that serves the version, and has it exactly if any that is available does.
abbrev pub Serves : Text → List Runtime → Runtime → Type 0
Serves v rs b =
    Among b rs
    × (matches v b ≡ true)
    × ((b.version ≡ v) ⊎ All (λ r. (r.is_available && text_eq r.version v) ≡ false) rs)

-- What the loop finds, started with `best`.
abbrev Found : Text → Option Runtime → List Runtime → Option Runtime → Type 0
Found v best rs none = (best ≡ none) × NoneMatches v rs
Found v best rs (some b) = Serves v rs b ⊎ ((best ≡ some b) × NoneMatches v rs)

NoneMatches-inexact :
    (v : Text) (rs : List Runtime)
    → NoneMatches v rs
    → All (λ r. (r.is_available && text_eq r.version v) ≡ false) rs
unfolding matches
NoneMatches-inexact v [] h = tt
NoneMatches-inexact v (r ∷ rs) h = (ground (arith, h.0), NoneMatches-inexact v rs h.1)

passed_over :
    (v : Text) (best : Option Runtime) (r : Runtime) (rs : List Runtime) (o : Option Runtime)
    → matches v r ≡ false
    → Found v best rs o
    → Found v best (r ∷ rs) o
unfolding matches
passed_over v best r rs none e h = (h.0, (e, h.1))
passed_over v best r rs (some b) e (inl (a, m, inl x)) = inl (inr a, m, inl x)
passed_over v best r rs (some b) e (inl (a, m, inr x)) = inl (inr a, m, inr (ground arith, x))
passed_over v best r rs (some b) e (inr (q, x)) = inr (q, (e, x))

taken :
    (v : Text) (best : Option Runtime) (r : Runtime) (rs : List Runtime) (o : Option Runtime)
    → matches v r ≡ true
    → text_eq r.version v ≡ false
    → Found v (some r) rs o
    → Found v best (r ∷ rs) o
taken v best r rs none e n h = cc
taken v best r rs (some b) e n (inl (a, m, inl x)) = inl (inr a, m, inl x)
taken v best r rs (some b) e n (inl (a, m, inr x)) = inl (inr a, m, inr (ground arith, x))
taken v best r rs (some b) e n (inr (q, x)) =
    let same : b ≡ r = cc in
    inl (inl same, ap (matches v) same ∙ e, inr (ground (arith, n), NoneMatches-inexact v rs x))

best_runtime-Found :
    (v : Text) (best : Option Runtime) (rs : List Runtime)
    → Found v best rs (best_runtime v best rs)
unfolding best_runtime
best_runtime-Found v none [] = (refl, tt)
best_runtime-Found v (some b) [] = inr (refl, tt)
best_runtime-Found v best (r ∷ rs) = elim (Bool-cases (matches v r)) [
  | inr e ↦ rw (e, best_runtime) (passed_over v best r rs _ e (best_runtime-Found v best rs))
  | inl e ↦ elim (Bool-cases (text_eq r.version v)) [
    | inl x ↦ rw (e, best_runtime, x) (inl (inl refl, e, inl ((text_eq_iff r.version v).0 x)))
    | inr x ↦ rw (e, best_runtime, x) (taken v best r rs _ e x (best_runtime-Found v (some r) rs))
  ]
]

-- What a resolution of a version says of the runtimes listed.
abbrev pub Resolves : Text → List Runtime → Option Runtime → Type 0
Resolves v rs none = NoneMatches v rs
Resolves v rs (some b) = Serves v rs b

-- A version resolves to a listed, available runtime that has it exactly or by its prefix, and
-- exactly if any that is available does; it resolves to none only when no runtime serves it.
pub resolve_runtime_by_version-Resolves :
    (v : Text) (rs : List Runtime) → Resolves v rs (resolve_runtime_by_version v (some rs))
unfolding resolve_runtime_by_version
resolve_runtime_by_version-Resolves v rs =
    by (best_runtime v none rs) (best_runtime-Found v none rs)
  where
    by : (o : Option Runtime) → Found v none rs o → Resolves v rs o
    by none h = h.1
    by (some b) (inl h) = h
    by (some b) (inr h) = cc
