-- ===== src/Warm/Floor.antt =====
-- How far the floor of `reap --warm` goes.
use simpool.Common.{ℕ, ◌≡◌, Bool, true, false, Option, if◌then◌else◌}
use simpool.Text.{Text}
use simpool.Meta.{Meta}
use simpool.Procs.{Os}
use simpool.Poison.Recovery.{Act, booted}
use simpool.Group.{World}
use simpool.Claims.{Context}
use simpool.Warm.Bounded.{AddsUpTo}

-- An act of the floor: a boot, outside a dry run.
abbrev pub Boots : Bool → Act → Type 0
Boots dry_run (booted u) = dry_run ≡ false
Boots dry_run _ = ⊥

module _ (c : Context) (dry_run : Bool) (memory : World → Option (ℕ × ℕ)) (floor : ℕ) where
  -- Every boot succeeds.
  abbrev pub BootsSucceed : Type 0
  BootsSucceed = (udid : Text) (os : Os) → (c.kernel.boot udid os).0 ≡ true

  -- A slot that does not count towards the floor has added no act.
  abbrev Booting : World → Bool × World → Type 0
  Booting w r = AddsUpTo (if r.0 then 1 else 0) (Boots dry_run) w r.1
