-- ===== src/Dispatch.antt =====
-- internal/pool/slot.go: the order in which every acquisition path walks a group's slots, and the
-- numbers of new slots.
pub mod Order
pub mod Fresh
pub mod Known
use simpool.Common.{
  ℕ, zero, suc, ◌+◌, Bool, true, false, not, ◌&&◌, ◌||◌, List, [], ◌∷◌, ltb, ◌==◌, if◌then◌else◌,
  has, keep, length,
}
use simpool.Common.Sorting.{sort_by}
use simpool.Text.{Text}
use simpool.Meta.{Meta}
use simpool.Slim.{satisfies, surplus_categories}
use simpool.Group.{Slots, numbers, slot_at}

-- Does slot `n` satisfy the request, by what its meta.json records?
unfoldable pub serves : Slots → List Text → ℕ → Bool
serves s want n = satisfies (slot_at n s).meta.capabilities want

-- Leanest first, then most recently used first.
unfoldable pub leaner : Slots → List Text → ℕ → ℕ → Bool
leaner s want i j =
    let mi = (slot_at i s).meta in
    let mj = (slot_at j s).meta in
    let si = surplus_categories mi.capabilities want in
    let sj = surplus_categories mj.capabilities want in
    if si == sj then ltb mj.last_used mi.last_used else ltb si sj

-- Least recently used first.
unfoldable pub staler : Slots → ℕ → ℕ → Bool
staler s i j = ltb (slot_at i s).meta.last_used (slot_at j s).meta.last_used

-- dispatchOrder: the slots that satisfy the request, and those that would be reconfigured.
unfoldable pub dispatch_order : List Text → Slots → List ℕ × List ℕ
dispatch_order want s = (
  sort_by (leaner s want) (keep (serves s want) (numbers s)),
  sort_by (staler s) (keep (λ n. not (serves s want n)) (numbers s)),
)

-- The loop that passes over the numbers of resident slots, with fuel for each of them.
unfoldable pub fresh_from : ℕ → ℕ → List ℕ → ℕ
fresh_from zero next resident = next
fresh_from (suc fuel) next resident =
    let later = fresh_from fuel (next + 1) resident in if has next resident then later else next

unfoldable pub fresh_number : ℕ → List ℕ → ℕ
fresh_number next resident = fresh_from (suc (length resident)) next resident
