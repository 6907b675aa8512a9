-- ===== src/Names/Decimal.antt =====
-- strconv.Itoa and strconv.Atoi on natural numbers.
use mathlib.Core.Logic.{◌≢◌, inl, inr}
use simpool.Common.{
  ℕ, zero, suc, ◌+◌, ◌-◌, ◌*◌, ◌/◌, ◌%◌, ◌<◌, ◌≡◌, refl, Bool, true, ◌&&◌, [], ◌∷◌, ◌++◌, arith,
  ltb, leb, if◌then◌else◌, Bool-cases, length, length-append, all, ap,
}
use simpool.Text.{Text}

itoa_from : ℕ → ℕ → Text
itoa_from zero n = []
itoa_from (suc fuel) n =
    let rest = itoa_from fuel (n / 10) in
    if ltb n 10 then (b'0' + n) ∷ [] else rest ++ (b'0' + n % 10) ∷ []

-- strconv.Itoa(n). A number has fewer than n + 1 digits.
unfoldable pub itoa : ℕ → Text
unfolding itoa_from
itoa n = itoa_from (suc n) n

unfoldable pub is_digit : ℕ → Bool
is_digit c = leb b'0' c && leb c b'9'

-- The value of a run of digits.
unfoldable pub digits_value : ℕ → Text → ℕ
digits_value acc [] = acc
digits_value acc (c ∷ cs) = digits_value (acc * 10 + (c - b'0')) cs

digits_value-append :
    (acc : ℕ) (s : Text) (c : ℕ)
    → digits_value acc (s ++ c ∷ []) ≡ digits_value acc s * 10 + (c - b'0')
unfolding digits_value
digits_value-append acc [] c = refl
digits_value-append acc (d ∷ s) c = digits_value-append (acc * 10 + (d - b'0')) s c

digits_value-itoa_from : (f n : ℕ) → n < f → digits_value 0 (itoa_from f n) ≡ n
unfolding itoa_from digits_value
digits_value-itoa_from zero n h = absurd (omega arith)
digits_value-itoa_from (suc f) n h = elim (Bool-cases (ltb n 10)) [
  | inl small ↦ rw small (ground arith)
  | inr large ↦ rw large (
      omega (
        arith,
        digits_value-append 0 (itoa_from f (n / 10)) (b'0' + n % 10),
        digits_value-itoa_from f (n / 10) (ground arith),
      ))
]

-- Reading back what was printed.
pub digits_value-itoa : (n : ℕ) → digits_value 0 (itoa n) ≡ n
unfolding itoa
digits_value-itoa n = digits_value-itoa_from (suc n) n (omega arith)

all-append : (p : ℕ → Bool) (s t : Text) → all p (s ++ t) ≡ (all p s && all p t)
unfolding all
all-append p [] t = refl
all-append p (c ∷ s) t = ground (arith, all-append p s t)

all_digits-itoa_from : (f n : ℕ) → all is_digit (itoa_from f n) ≡ true
unfolding itoa_from all is_digit
all_digits-itoa_from zero n = refl
all_digits-itoa_from (suc f) n = ground (
  arith,
  all_digits-itoa_from f (n / 10),
  all-append is_digit (itoa_from f (n / 10)) ((b'0' + n % 10) ∷ []),
)

pub all_digits-itoa : (n : ℕ) → all is_digit (itoa n) ≡ true
unfolding itoa
all_digits-itoa n = all_digits-itoa_from (suc n) n

pub itoa-ne-nil : (n : ℕ) → itoa n ≢ []
unfolding itoa itoa_from
itoa-ne-nil n h = elim (Bool-cases (ltb n 10)) [
  | inl e ↦ cc (rw (e, itoa, itoa_from) at h)
  | inr e ↦
      let long = ap length (rw (e, itoa, itoa_from) at h) in
      omega (arith, long, length-append (itoa_from n (n / 10)) ((b'0' + n % 10) ∷ []))
]
