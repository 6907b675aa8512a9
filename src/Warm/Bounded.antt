-- ===== src/Warm/Bounded.antt =====
-- How many acts a pass of `reap --warm` adds, and of which kind.
use simpool.Common.{ℕ, ◌+◌, ◌≤◌, ◌≡◌, List, ◌++◌, arith, length, length-append, All, ap, ◌∙◌}
use simpool.Poison.Recovery.{Act}
use simpool.Poison.Kills.{All-weaken, append_All, append_assoc}
use simpool.Group.{World}

-- At most `k` acts are added, each of which satisfies `P`.
abbrev pub AddsUpTo : ℕ → (Act → Type 0) → World → World → Type 0
AddsUpTo k P w v =
    (new : List Act) × (v.machine.acts ≡ new ++ w.machine.acts) × All P new × (length new ≤ k)

module _ (P : Act → Type 0) (w v u : World) where
  pub AddsUpTo-from :
      (k : ℕ) → v.machine.acts ≡ w.machine.acts → AddsUpTo k P v u → AddsUpTo k P w u
  AddsUpTo-from k e (new, f, a, l) = (new, f ∙ ap (λ acts. new ++ acts) e, a, l)

  pub AddsUpTo-trans :
      (j k l : ℕ) → j + k ≤ l → AddsUpTo j P w v → AddsUpTo k P v u → AddsUpTo l P w u
  AddsUpTo-trans j k l h (new, e, a, m) (later, f, b, n) = (
    later ++ new,
    f ∙ ap (λ acts. later ++ acts) e ∙ append_assoc later new w.machine.acts,
    append_All P later new b a,
    omega (arith, length-append later new, h, m, n),
  )

pub AddsUpTo-weaken :
    (k : ℕ) (P Q : Act → Type 0) (w v : World)
    → ((a : Act) → P a → Q a)
    → AddsUpTo k P w v
    → AddsUpTo k Q w v
AddsUpTo-weaken k P Q w v f (new, e, a, l) = (new, e, All-weaken P Q f new a, l)
