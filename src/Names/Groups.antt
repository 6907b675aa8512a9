-- ===== src/Names/Groups.antt =====
-- internal/pool/paths.go: group names.
use simpool.Common.{
  ℕ, ◌≡◌, refl, inl, inr, Bool, true, false, ◌&&◌, ◌||◌, [], ◌∷◌, ◌++◌, arith, leb, ◌==◌,
  if◌then◌else◌, all, Bool-cases,
}
use simpool.Text.{Text, is_space, is_empty}

-- [A-Za-z0-9._-]
unfoldable pub allowed : ℕ → Bool
allowed c =
    (leb b'A' c && leb c b'Z')
    || (leb b'a' c && leb c b'z')
    || (leb b'0' c && leb c b'9')
    || c == b'.'
    || c == b'_'
    || c == b'-'

-- sanitizeRe.ReplaceAllString(s, "-"); `run` is whether a run of other characters is being replaced.
unfoldable pub replace_runs : Bool → Text → Text
replace_runs run [] = []
replace_runs run (c ∷ cs) =
    let inside = replace_runs true cs in
    let outside = replace_runs false cs in
    if allowed c then c ∷ outside else if run then inside else b'-' ∷ inside

unfoldable pub trim_left : (ℕ → Bool) → Text → Text
trim_left p [] = []
trim_left p (c ∷ cs) = let rest = trim_left p cs in if p c then rest else c ∷ cs

unfoldable pub trim_right : (ℕ → Bool) → Text → Text
trim_right p [] = []
trim_right p (c ∷ cs) = let rest = trim_right p cs in if p c && is_empty rest then [] else c ∷ rest

abbrev trim : (ℕ → Bool) → Text → Text
trim p s = trim_right p (trim_left p s)

-- sanitize
unfoldable pub sanitize : Text → Text
sanitize s = trim (λ c. c == b'-') (replace_runs false (trim is_space s))

-- GroupName, with groupSep between its parts.
unfoldable pub group_name : Text → Text → Text
group_name device os_version = sanitize device ++ b'@' ∷ sanitize os_version

dash-allowed : allowed b'-' ≡ true
unfolding allowed
dash-allowed = refl

replace_runs-allowed : (run : Bool) (s : Text) → all allowed (replace_runs run s) ≡ true
unfolding replace_runs all
replace_runs-allowed run [] = refl
replace_runs-allowed run (c ∷ cs) = elim (Bool-cases (allowed c)) [
  | inl e ↦ ground (arith, replace_runs-allowed false cs)
  | inr e ↦ ground (arith, replace_runs-allowed true cs, dash-allowed)
]

trim_left-all : (p q : ℕ → Bool) (s : Text) → all p s ≡ true → all p (trim_left q s) ≡ true
unfolding trim_left all
trim_left-all p q [] h = refl
trim_left-all p q (c ∷ cs) h = ground (arith, trim_left-all p q cs)

trim_right-all : (p q : ℕ → Bool) (s : Text) → all p s ≡ true → all p (trim_right q s) ≡ true
unfolding trim_right all
trim_right-all p q [] h = refl
trim_right-all p q (c ∷ cs) h = ground (arith, trim_right-all p q cs)

pub all-allowed-sanitize : (s : Text) → all allowed (sanitize s) ≡ true
unfolding sanitize
all-allowed-sanitize s =
    let r = replace_runs false (trim is_space s) in
    trim_right-all allowed (λ c. c == b'-') (trim_left (λ c. c == b'-') r)
      (trim_left-all allowed (λ c. c == b'-') r (replace_runs-allowed false (trim is_space s)))

-- A text is cut in one way only at the first character that fails a test.
split_first :
    (p : ℕ → Bool) (sep : ℕ) (a b s t : Text)
    → p sep ≡ false
    → all p a ≡ true
    → all p b ≡ true
    → a ++ sep ∷ s ≡ b ++ sep ∷ t
    → (a ≡ b) × (s ≡ t)
unfolding all
split_first p sep [] [] s t f g h e = (refl, cc)
split_first p sep [] (y ∷ b) s t f g h e = ground arith
split_first p sep (x ∷ a) [] s t f g h e = ground arith
split_first p sep (x ∷ a) (y ∷ b) s t f g h e = ground (arith, split_first p sep a b s t f)

-- A group's name tells the two sanitized parts apart, and is made of letters, digits, `.`, `_` and
-- `-`, with one `@` between the parts.
group_name_parts :
    (device os_version device' os_version' : Text)
    → group_name device os_version ≡ group_name device' os_version'
    → (sanitize device ≡ sanitize device')
      × (sanitize os_version ≡ sanitize os_version')
      × (all allowed (sanitize device) ≡ true)
      × (all allowed (sanitize os_version) ≡ true)
unfolding group_name allowed
group_name_parts d o d' o' e =
    let parts =
      split_first allowed b'@' (sanitize d) (sanitize d') (sanitize o) (sanitize o') refl
        (all-allowed-sanitize d) (all-allowed-sanitize d') e in
    (parts.0, parts.1, all-allowed-sanitize d, all-allowed-sanitize o)
