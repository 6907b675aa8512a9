-- ===== src/Locking/Exclusion.antt =====
-- Of the processes that follow the protocol, one at most holds the slot.
use simpool.Common.{ℕ, ◌≡◌, ◌≢◌, Bool, true, false, Option, none, some}
use simpool.Locking.{Phase, entered, opened, holding, deleting, probed, State, flocked}

-- A process that holds the slot, and may work on it, on its simulator, or remove it.
abbrev pub held : Phase → Option ℕ
held (holding i) = some i
held (deleting i) = some i
held (probed i) = some i
held _ = none

-- A process in the allocation lock.
abbrev pub critical : Phase → Bool
critical entered = true
critical (opened i) = true
critical (deleting i) = true
critical _ = false

-- What the steps keep true.
abbrev pub Invariant : State → Type 0
Invariant s =
    ((p i : ℕ) → held (s.phase p) ≡ some i → s.path ≡ some i)
    × ((p i : ℕ) → s.phase p ≡ opened i → s.path ≡ some i)
    × ((p : ℕ) → critical (s.phase p) ≡ true → s.alloc ≡ some p)
    × ((p q i : ℕ) → flocked (s.phase p) ≡ some i → flocked (s.phase q) ≡ some i → p ≡ q)

-- A process that goes on keeps the invariant, if its new phase fits the new state and the others'
-- phases still do.
abbrev Fits : State → ℕ → Phase → Option ℕ → Option ℕ → Type 0
Fits s p new a path =
    ((i : ℕ) → held new ≡ some i → path ≡ some i)
    × ((i : ℕ) → new ≡ opened i → path ≡ some i)
    × (critical new ≡ true → a ≡ some p)
    × ((q : ℕ) → q ≢ p → critical (s.phase q) ≡ true → a ≡ some q)
    × ((q i : ℕ) → q ≢ p → flocked new ≡ some i → flocked (s.phase q) ≢ some i)
