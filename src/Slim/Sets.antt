-- ===== src/Slim/Sets.antt =====
-- What the profile of a slot becomes, and whom it serves.
use simpool.Common.{
  ◌≡◌, refl, ◌≢◌, ◌↔◌, inl, inr, Bool, true, false, not, ◌&&◌, ◌||◌, List, [], ◌∷◌, arith, all, ◌∙◌,
  Bool-cases,
}
use simpool.Common.Sorting.{insert_by, sort_by, IsSorted, sort_by-IsSorted}
use simpool.Text.{Text, text_eq, text_eq_iff, text_eq_refl, has_text, is_empty, is_empty→nil}
use simpool.Slim.{text_lt, satisfies, dedupe, dedupe_sorted, effective_categories}

-- The same texts are in two lists.
abbrev pub SameTexts : List Text → List Text → Type 0
SameTexts a b = (t : Text) → has_text t a ≡ has_text t b

all_has :
    (f : Text → Bool) (t : Text) (ws : List Text)
    → all f ws ≡ true
    → has_text t ws ≡ true
    → f t ≡ true
unfolding all has_text
all_has f t [] h m = cc
all_has f t (w ∷ ws) h m = ground (arith, text_eq_iff w t, all_has f t ws)

has_all :
    (f : Text → Bool) (ws : List Text)
    → ((t : Text) → has_text t ws ≡ true → f t ≡ true)
    → all f ws ≡ true
unfolding all has_text
has_all f [] h = refl
has_all f (w ∷ ws) h = ground (arith, h w, text_eq_refl w, has_all f ws (λ t m. h t (ground arith)))

-- A slot serves a request exactly if it has every category that the request names.
satisfies_iff :
    (have want : List Text)
    → (satisfies have want ≡ true) ↔ ((t : Text) → has_text t want ≡ true → has_text t have ≡ true)
unfolding satisfies has_text
satisfies_iff have [] = (λ h t m. cc, λ h. refl)
satisfies_iff have (w ∷ ws) = (
  λ h t m. all_has (λ u. has_text u have) t (w ∷ ws) h m,
  λ h. has_all (λ u. has_text u have) (w ∷ ws) h,
)

has_text-dedupe :
    (t : Text) (seen vs : List Text)
    → (has_text t seen || has_text t (dedupe seen vs))
      ≡ (has_text t seen || (not (is_empty t) && has_text t vs))
unfolding has_text dedupe
has_text-dedupe t seen [] = ground arith
has_text-dedupe t seen (v ∷ vs) =
    ground (arith, text_eq_iff v t, has_text-dedupe t seen vs, has_text-dedupe t (v ∷ seen) vs)

has_text-insert_by :
    (t v : Text) (vs : List Text)
    → has_text t (insert_by text_lt v vs) ≡ (text_eq v t || has_text t vs)
unfolding has_text insert_by
has_text-insert_by t v [] = refl
has_text-insert_by t v (x ∷ xs) = ground (arith, has_text-insert_by t v xs)

has_text-sort_by : (t : Text) (vs : List Text) → has_text t (sort_by text_lt vs) ≡ has_text t vs
unfolding has_text sort_by
has_text-sort_by t [] = refl
has_text-sort_by t (v ∷ vs) =
    ground (arith, has_text-insert_by t v (sort_by text_lt vs), has_text-sort_by t vs)

text_lt_asymmetric : (s t : Text) → text_lt s t ≡ true → text_lt t s ≡ false
unfolding text_lt
text_lt_asymmetric s [] h = cc
text_lt_asymmetric [] (d ∷ t) h = refl
text_lt_asymmetric (c ∷ s) (d ∷ t) h = ground (arith, text_lt_asymmetric s t)

text_lt_mono : (a b c : Text) → text_lt b a ≡ false → text_lt c b ≡ false → text_lt c a ≡ false
unfolding text_lt
text_lt_mono [] b c h k = refl
text_lt_mono (x ∷ a) [] c h k = cc
text_lt_mono (x ∷ a) (y ∷ b) [] h k = cc
text_lt_mono (x ∷ a) (y ∷ b) (z ∷ c) h k = ground (arith, text_lt_mono a b c)

-- No text is twice in the list.
abbrev pub Distinct : List Text → Type 0
Distinct [] = Unit {0}
Distinct (v ∷ vs) = (has_text v vs ≡ false) × Distinct vs

dedupe-fresh :
    (t : Text) (seen vs : List Text) → has_text t seen ≡ true → has_text t (dedupe seen vs) ≡ false
unfolding dedupe has_text
dedupe-fresh t seen [] h = refl
dedupe-fresh t seen (v ∷ vs) h =
    ground (arith, text_eq_iff v t, dedupe-fresh t seen vs, dedupe-fresh t (v ∷ seen) vs)

dedupe-Distinct : (seen vs : List Text) → Distinct (dedupe seen vs)
unfolding dedupe has_text
dedupe-Distinct seen [] = tt
dedupe-Distinct seen (v ∷ vs) = elim (Bool-cases (is_empty v || has_text v seen)) [
  | inl e ↦ rw (e, Distinct, dedupe) (dedupe-Distinct seen vs)
  | inr e ↦
      rw (e, Distinct, dedupe)
        (
          dedupe-fresh v (v ∷ seen) vs (ground (arith, text_eq_refl v)),
          dedupe-Distinct (v ∷ seen) vs,
        )
]

insert_by-Distinct :
    (v : Text) (vs : List Text)
    → has_text v vs ≡ false
    → Distinct vs
    → Distinct (insert_by text_lt v vs)
unfolding insert_by has_text
insert_by-Distinct v [] h d = (refl, tt)
insert_by-Distinct v (x ∷ xs) h d = elim (Bool-cases (text_lt x v)) [
  | inl e ↦ rw e (
    ground (arith, has_text-insert_by x v xs, text_eq_iff x v, text_eq_iff v x),
    insert_by-Distinct v xs (ground arith) d.1,
  )
  | inr e ↦ rw e (h, d)
]

sort_by-Distinct : (vs : List Text) → Distinct vs → Distinct (sort_by text_lt vs)
unfolding sort_by
sort_by-Distinct [] d = tt
sort_by-Distinct (v ∷ vs) d =
    insert_by-Distinct v (sort_by text_lt vs) (rw has_text-sort_by d.0) (sort_by-Distinct vs d.1)

-- dedupeSorted keeps exactly the texts that are not empty, once each, in Go's order.
dedupe_sorted_lem :
    (vs : List Text)
    → ((t : Text) → has_text t (dedupe_sorted vs) ≡ (not (is_empty t) && has_text t vs))
      × Distinct (dedupe_sorted vs)
      × IsSorted text_lt (dedupe_sorted vs)
unfolding dedupe_sorted has_text
dedupe_sorted_lem vs = (
  λ t. has_text-sort_by t (dedupe [] vs) ∙ has_text-dedupe t [] vs,
  sort_by-Distinct (dedupe [] vs) (dedupe-Distinct [] vs),
  sort_by-IsSorted text_lt text_lt_asymmetric text_lt_mono (dedupe [] vs),
)

-- The profile that a slot ends up in serves the request, if no requested name is empty; and a slot
-- that served the request already keeps every category that it had.
effective_categories_lem :
    (have want : List Text)
    → has_text [] want ≡ false
    → (satisfies (effective_categories have want) want ≡ true)
      × (satisfies have want ≡ true
          → (t : Text) → t ≢ []
          → has_text t (effective_categories have want) ≡ has_text t have)
      × (satisfies have want ≡ false
          → (t : Text) → has_text t (effective_categories have want) ≡ has_text t want)
unfolding effective_categories
effective_categories_lem have want h = elim (Bool-cases (satisfies have want)) [
  | inl e ↦ rw e (
    (satisfies_iff (dedupe_sorted have) want).1
        (λ t m. kept have t (not_empty t m) ((satisfies_iff have want).0 e t m)),
    λ _ t ne. ground (arith, (dedupe_sorted_lem have).0 t, is_empty→nil t),
    λ n. cc,
  )
  | inr e ↦ rw e (
    (satisfies_iff (dedupe_sorted want) want).1 (λ t m. kept want t (not_empty t m) m),
    λ n. cc,
    λ _ t. ground (arith, (dedupe_sorted_lem want).0 t, is_empty→nil t),
  )
]
  where
    kept :
        (vs : List Text) (t : Text)
        → is_empty t ≡ false
        → has_text t vs ≡ true
        → has_text t (dedupe_sorted vs) ≡ true
    kept vs t ne m = ground (arith, (dedupe_sorted_lem vs).0 t)

    not_empty : (t : Text) → has_text t want ≡ true → is_empty t ≡ false
    not_empty t m = ground (arith, is_empty→nil t)
