-- ===== src/Names/Unique.antt =====
-- internal/pool/paths.go: different slots have different simulators.
use simpool.Common.{
  ℕ, ◌≡◌, refl, sym, ◌∙◌, ap, Bool, true, false, [], ◌∷◌, ◌++◌, arith, all, length, length-append,
}
use simpool.Text.{Text, codes}
use simpool.Names.{device_name_for_group, name_prefix}
use simpool.Names.Decimal.{itoa, is_digit, digits_value, digits_value-itoa, all_digits-itoa}

all_suffix : (p : ℕ → Bool) (a : Text) (c : ℕ) (s : Text) → all p (a ++ c ∷ s) ≡ true → p c ≡ true
unfolding all
all_suffix p [] c s h = ground arith
all_suffix p (x ∷ a) c s h = all_suffix p a c s (ground arith)

-- A text is cut in one way only at the last character that fails a test.
split_last :
    (p : ℕ → Bool) (sep : ℕ) (a b s t : Text)
    → p sep ≡ false
    → all p s ≡ true
    → all p t ≡ true
    → a ++ sep ∷ s ≡ b ++ sep ∷ t
    → (a ≡ b) × (s ≡ t)
split_last p sep [] [] s t f g h e = (refl, cc)
split_last p sep [] (y ∷ b) s t f g h e =
    let tail : s ≡ b ++ sep ∷ t = cc in ground (arith, all_suffix p b sep t (rw tail at g))
split_last p sep (x ∷ a) [] s t f g h e =
    let tail : t ≡ a ++ sep ∷ s = cc in ground (arith, all_suffix p a sep s (rw tail at h))
split_last p sep (x ∷ a) (y ∷ b) s t f g h e = ground (arith, split_last p sep a b s t f g h)

split_length : (a b s t : Text) → length a ≡ length b → a ++ s ≡ b ++ t → (a ≡ b) × (s ≡ t)
split_length [] [] s t h e = (refl, e)
split_length [] (y ∷ b) s t h e = absurd (omega arith)
split_length (x ∷ a) [] s t h e = absurd (omega arith)
split_length (x ∷ a) (y ∷ b) s t h e = ground (arith, split_length a b s t)

regroup : (a b c : Text) → a ++ (b ++ c) ≡ (a ++ b) ++ c
regroup [] b c = refl
regroup (x ∷ a) b c = ap (◌∷◌ x) (regroup a b c)

itoa_injective : (n m : ℕ) → itoa n ≡ itoa m → n ≡ m
itoa_injective n m e = sym (digits_value-itoa n) ∙ ap (digits_value 0) e ∙ digits_value-itoa m

dash_no_digit : is_digit b'-' ≡ false
unfolding is_digit
dash_no_digit = refl

slot_part :
    (g h : Text) (n m : ℕ)
    → g ++ (codes "_slot" ++ b'-' ∷ itoa n) ≡ h ++ (codes "_slot" ++ b'-' ∷ itoa m)
    → (g ≡ h) × (n ≡ m)
slot_part g h n m e =
    let u = codes "_slot" in
    let cut =
      split_last is_digit b'-' (g ++ u) (h ++ u) (itoa n) (itoa m) dash_no_digit (all_digits-itoa n)
        (all_digits-itoa m) (sym (regroup g u (b'-' ∷ itoa n)) ∙ e ∙ regroup h u (b'-' ∷ itoa m)) in
    let same : length g ≡ length h =
      omega (arith, ap length cut.0, length-append g u, length-append h u) in
    ((split_length g h u u same cut.0).0, itoa_injective n m cut.1)

-- Two slots have the same simulator's name only if their roots' tags, their groups and their
-- numbers are the same, for tags of one length.
pub device_name_for_group_injective :
    (tag tag' group group' : Text) (n m : ℕ)
    → length tag ≡ length tag'
    → device_name_for_group tag group n ≡ device_name_for_group tag' group' m
    → (tag ≡ tag') × (group ≡ group') × (n ≡ m)
unfolding device_name_for_group
device_name_for_group_injective tag tag' group group' n m h e =
    let rest =
      split_length name_prefix name_prefix
        (tag ++ (codes "_" ++ (group ++ (codes "_slot-" ++ itoa n))))
        (tag' ++ (codes "_" ++ (group' ++ (codes "_slot-" ++ itoa m)))) refl e in
    let tags =
      split_length tag tag' (codes "_" ++ (group ++ (codes "_slot-" ++ itoa n)))
        (codes "_" ++ (group' ++ (codes "_slot-" ++ itoa m))) h rest.1 in
    let groups =
      split_length (codes "_") (codes "_") (group ++ (codes "_slot-" ++ itoa n))
        (group' ++ (codes "_slot-" ++ itoa m)) refl tags.1 in
    let slot = slot_part group group' n m groups.1 in (tags.0, slot.0, slot.1)
