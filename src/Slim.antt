-- ===== src/Slim.antt =====
-- internal/pool/slim.go: capabilities as sets of simslim categories, and which slots serve a
-- request. The table of simslim's categories is that library's, a parameter `known`. The
-- environment's lists come in as arguments.
pub mod Sets
use simpool.Common.{
  ℕ, zero, suc, Bool, true, false, not, ◌&&◌, ◌||◌, List, [], ◌∷◌, ◌++◌, Option, none, some, ltb,
  ◌==◌, if◌then◌else◌, all, keep, length,
}
use simpool.Common.Sorting.{sort_by}
use simpool.Text.{Text, codes, text_eq, has_text, is_empty}

-- Go's order on strings. Code points order as their UTF-8 bytes do.
unfoldable pub text_lt : Text → Text → Bool
text_lt s [] = false
text_lt [] (d ∷ t) = true
text_lt (c ∷ s) (d ∷ t) = ltb c d || (c == d && text_lt s t)

-- Satisfies
unfoldable pub satisfies : List Text → List Text → Bool
satisfies have [] = true
satisfies have (w ∷ ws) = all (λ t. has_text t have) (w ∷ ws)

-- SurplusCategories
unfoldable pub surplus_categories : List Text → List Text → ℕ
surplus_categories [] want = 0
surplus_categories (h ∷ hs) want =
    let rest = surplus_categories hs want in if has_text h want then rest else suc rest

-- The loop of dedupeSorted before it sorts.
unfoldable pub dedupe : List Text → List Text → List Text
dedupe seen [] = []
dedupe seen (v ∷ vs) = elim (is_empty v || has_text v seen) [
  | true ↦ dedupe seen vs
  | false ↦ v ∷ dedupe (v ∷ seen) vs
]

-- dedupeSorted
unfoldable pub dedupe_sorted : List Text → List Text
dedupe_sorted vs = sort_by text_lt (dedupe [] vs)

-- EffectiveCategories
unfoldable pub effective_categories : List Text → List Text → List Text
effective_categories have want =
    if satisfies have want then dedupe_sorted have else dedupe_sorted want

-- Capabilities: the table of names that stand for categories.
abbrev pub capabilities : List (Text × List Text)
capabilities = (codes "photos", codes "photos" ∷ []) ∷ (codes "spotlight", codes "search" ∷ []) ∷ []

unfoldable pub lookup_capability : Text → List (Text × List Text) → Option (List Text)
lookup_capability n [] = none
lookup_capability n ((name, cats) ∷ rest) =
    if text_eq name n then some cats else lookup_capability n rest

abbrev add_categories : List Text → Option (List Text) → Option (List Text)
add_categories cats none = none
add_categories cats (some more) = some (cats ++ more)

abbrev resolve_one : (Text → Bool) → Text → Option (List Text) → Option (List Text)
resolve_one known n (some mapped) = some mapped
resolve_one known n none = if known n then some (n ∷ []) else none

abbrev resolve_step : Option (List Text) → Option (List Text) → Option (List Text)
resolve_step none rest = none
resolve_step (some cats) rest = add_categories cats rest

-- ResolveCapabilities on names that are already trimmed; `none` is its error.
unfoldable pub resolve_capabilities : (Text → Bool) → List Text → Option (List Text)
resolve_capabilities known [] = some []
resolve_capabilities known (n ∷ ns) =
    let rest = resolve_capabilities known ns in
    if is_empty n
    then rest
    else resolve_step (resolve_one known n (lookup_capability n capabilities)) rest

abbrev with_excepted : List Text → Option (List Text) → List Text
with_excepted except none = []
with_excepted except (some cats) = dedupe_sorted (cats ++ except)

-- RequestedCategories: `needs` are the --need names and those of SIMPOOL_NEED, `except` those of
-- SIMPOOL_SLIM_EXCEPT.
unfoldable pub requested_categories : (Text → Bool) → List Text → List Text → List Text
requested_categories known needs except = with_excepted except (resolve_capabilities known needs)
