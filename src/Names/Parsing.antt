-- ===== src/Names/Parsing.antt =====
-- internal/pool/paths.go: reading slot numbers back from directory names.
use simpool.Common.{
  ℕ, ◌<◌, ◌≡◌, not, ◌&&◌, ◌∷◌, Option, none, some, arith, ltb, ◌==◌, if◌then◌else◌, all,
}
use simpool.Text.{Text, is_empty, is_empty→nil}
use simpool.Names.Decimal.{
  itoa, is_digit, digits_value, digits_value-itoa, all_digits-itoa, itoa-ne-nil,
}
use simpool.Names.{slot_dir_name}

-- 2^63, above the largest value of Go's int: strconv.Atoi reports an error from here on.
abbrev pub int_limit : ℕ
int_limit = 9_223_372_036_854_775_808

abbrev bounded : ℕ → Option ℕ
bounded n = if ltb n int_limit then some n else none

-- strconv.Atoi on what (\d+) has matched, and the tests of the match.
unfoldable pub number_of : Text → Option ℕ
number_of digits =
    if not (is_empty digits) && all is_digit digits then bounded (digits_value 0 digits) else none

-- SlotNumberOf on the last part of the path: ^slot-(\d+)$ and Atoi.
unfoldable pub slot_number_of : Text → Option ℕ
slot_number_of (s ∷ l ∷ o ∷ t ∷ d ∷ digits) =
    if s == b's' && l == b'l' && o == b'o' && t == b't' && d == b'-' then number_of digits else none
slot_number_of _ = none

number_of-itoa : (n : ℕ) → n < int_limit → number_of (itoa n) ≡ some n
unfolding number_of
number_of-itoa n h =
    ground (arith, digits_value-itoa n, all_digits-itoa n, itoa-ne-nil n, is_empty→nil (itoa n))

-- The number of a slot directory is read back from its name, for every number of Go's int.
pub slot_number_of-slot_dir_name :
    (n : ℕ) → n < int_limit → slot_number_of (slot_dir_name n) ≡ some n
unfolding slot_number_of slot_dir_name
slot_number_of-slot_dir_name n h = number_of-itoa n h
