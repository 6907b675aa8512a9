-- ===== src/Warm.antt =====
-- internal/cli/warmfloor.go, idle.go and reap.go: `reap --warm` keeps the most recently used free
-- simulators of a group booted, a ceiling (enforceWarmCap) and a floor (enforceWarmFloor).
-- `Context.sleep` stands for what other processes do between two slots; output is left out.

pub mod Bounded
pub mod Recent
pub mod Floor
use simpool.Common.{
  ℕ, zero, suc, ◌-◌, ◌*◌, Bool, true, false, not, ◌&&◌, ◌||◌, List, [], ◌∷◌, ◌++◌, Option, none,
  some, ltb, leb, ◌==◌, if◌then◌else◌, has, length, map,
}
use simpool.Common.Sorting.{sort_by}
use simpool.Text.{Text, is_empty}
use simpool.Meta.{Meta}
use simpool.Poison.{poisoned, check_poison, shutdown_state}
use simpool.Poison.Recovery.{booted}
use simpool.Availability.{LockState, unlocked, locked, unopenable}
use simpool.Group.{World, os_of, numbers, slot_at, unlock}
use simpool.Claims.{Context}
use simpool.Reclaims.{free_of_lease}
use simpool.Reap.{booted_state, listed_device, own_name, in_state, shut_device}
use simpool.Reap.Slot.{lock_slot}

-- warmCandidate and coldWarmCandidate
pub record WarmCandidate : Type 0 where
  pub number : ℕ
  pub meta : Meta

-- LastUsed.After
abbrev pub more_recent_use : WarmCandidate → WarmCandidate → Bool
more_recent_use a b = ltb b.meta.last_used a.meta.last_used

-- The `n` first of a list, and the rest.
unfoldable pub take_warm : ℕ → List WarmCandidate → List WarmCandidate
take_warm zero xs = []
take_warm (suc n) [] = []
take_warm (suc n) (x ∷ xs) = x ∷ take_warm n xs

unfoldable pub drop_warm : ℕ → List WarmCandidate → List WarmCandidate
drop_warm zero xs = xs
drop_warm (suc n) [] = []
drop_warm (suc n) (x ∷ xs) = drop_warm n xs

-- classifyWarmSlot and classifyColdWarmSlot, which ask for the states Booted and Shutdown.
unfoldable pub classify_for : Text → Context → ℕ → World → Option Meta
classify_for state c n w =
    let d = slot_at n w.slots in
    if free_of_lease (os_of w).now d.lease_file
      && not (poisoned (check_poison (os_of w) d.meta).reason)
      && not (is_empty d.meta.udid)
      && in_state state (own_name c n) (listed_device d.meta.udid (os_of w).devices)
    then some d.meta
    else none

abbrev pub candidate_of : ℕ → Option Meta → List WarmCandidate
candidate_of n none = []
candidate_of n (some m) = record { number = n; meta = m } ∷ []

-- The slots that warmKept ranks: --cold leaves the first `warm` of them alone.
unfoldable pub keepable : List ℕ → World → List WarmCandidate
keepable [] w = []
keepable (n ∷ ns) w =
    let d = slot_at n w.slots in
    let rest = keepable ns w in
    if free_of_lease (os_of w).now d.lease_file && not (is_empty d.meta.udid)
    then record { number = n; meta = d.meta } ∷ rest
    else rest

-- warmKept
unfoldable pub warm_kept : ℕ → World → List ℕ
warm_kept warm w =
    map (λ x. x.number) (take_warm warm (sort_by more_recent_use (keepable (numbers w.slots) w)))

module _ (c : Context) (dry_run : Bool) where
  abbrev pub probe_warm : LockState → Text → ℕ → World → List WarmCandidate
  probe_warm unlocked state n w = candidate_of n (classify_for state c n w)
  probe_warm _ state n w = []

  -- The first pass of enforceWarmCap, with the flock of one slot at a time.
  unfoldable pub warm_candidates : List ℕ → World → List WarmCandidate
  warm_candidates [] w = []
  warm_candidates (n ∷ ns) w =
      probe_warm (slot_at n w.slots).lock booted_state n w ++ warm_candidates ns w

  abbrev pub shut_classified : ℕ → Option Meta → World → World
  shut_classified n none w = w
  shut_classified n (some m) w =
      if dry_run then w else unlock n (shut_device c m.udid (lock_slot n w))

  abbrev pub shut_if : LockState → ℕ → World → World
  shut_if unlocked n w = shut_classified n (classify_for booted_state c n w) w
  shut_if _ n w = w

  -- One slot of the second pass, in the world in which its turn comes.
  abbrev pub shut_next : ℕ → World → World
  shut_next n w = if has n (numbers w.slots) then shut_if (slot_at n w.slots).lock n w else w

  -- The second pass: each slot is locked and classified again.
  unfoldable pub shut_excess : List WarmCandidate → World → World
  shut_excess [] w = w
  shut_excess (x ∷ xs) w = shut_excess xs (shut_next x.number (c.sleep w))

  -- enforceWarmCap
  unfoldable pub enforce_warm_cap : ℕ → World → World
  enforce_warm_cap warm w =
      let free = warm_candidates (numbers w.slots) w in
      shut_excess (drop_warm warm (sort_by more_recent_use free)) w

-- Free memory, of a total, in percent; `none` is "could not tell".
abbrev pub enough_free : ℕ → Option (ℕ × ℕ) → Bool
enough_free floor none = false
enough_free floor (some (free, total)) = leb (floor * total) (100 * free)

-- The first pass of enforceWarmFloor: how many slots count as warm, and the cold ones.
pub record Census : Type 0 where
  pub warm : ℕ
  pub cold : List WarmCandidate

abbrev pub count_warm : Census → Census
count_warm s = record s { warm = suc s.warm }

abbrev pub count_cold : List WarmCandidate → Census → Census
count_cold xs s = record s { cold = xs ++ s.cold }

-- `memory` is FreeMemoryFraction, `floor` warmFloorThreshold() in percent.
module _ (c : Context) (dry_run : Bool) (memory : World → Option (ℕ × ℕ)) (floor : ℕ) where
  abbrev pub census_free : Option Meta → ℕ → World → Census → Census
  census_free (some m) n w s = count_warm s
  census_free none n w s = count_cold (candidate_of n (classify_for shutdown_state c n w)) s

  -- A slot that cannot be locked counts as warm.
  abbrev pub census_slot : LockState → ℕ → World → Census → Census
  census_slot unlocked n w s = census_free (classify_for booted_state c n w) n w s
  census_slot _ n w s = count_warm s

  unfoldable pub warm_census : List ℕ → World → Census
  warm_census [] w = record { warm = 0; cold = [] }
  warm_census (n ∷ ns) w = census_slot (slot_at n w.slots).lock n w (warm_census ns w)

  -- BootAndWait under the slot's flock: whether it succeeded.
  unfoldable pub boot_slot : ℕ → Text → World → Bool × World
  boot_slot n udid w =
      let (up, os) = c.kernel.boot udid w.machine.os in
      (
        up,
        unlock n (record (lock_slot n w) {
          machine = record { os = os; acts = booted udid ∷ w.machine.acts };
        }),
      )

  abbrev pub boot_classified : ℕ → Option Meta → World → Bool × World
  boot_classified n none w = (false, w)
  boot_classified n (some m) w = if dry_run then (true, w) else boot_slot n m.udid w

  -- Whether the slot counts towards the floor: it became busy, or was booted.
  abbrev pub boot_if : LockState → ℕ → World → Bool × World
  boot_if unlocked n w = boot_classified n (classify_for shutdown_state c n w) w
  boot_if _ n w = (true, w)

  -- Is memory read again, and too low? It is after a boot that succeeded.
  abbrev pub stops_short : LockState → ℕ → World → Bool × World → Bool
  stops_short unlocked n w (true, w') = not dry_run && not (enough_free floor (memory w'))
  stops_short _ n w r = false

  -- The second pass, with `missing` slots to go. A directory that is gone cannot be locked, which
  -- counts like a slot that became busy.
  unfoldable pub boot_cold : ℕ → List WarmCandidate → World → World
  boot_cold missing [] w = w
  boot_cold missing (x ∷ xs) w =
      let n = x.number in
      let w₁ = c.sleep w in
      let lock = if has n (numbers w₁.slots) then (slot_at n w₁.slots).lock else unopenable in
      let r = boot_if lock n w₁ in
      let rest = boot_cold (if r.0 then missing - 1 else missing) xs r.1 in
      if missing == 0 then w else if stops_short lock n w₁ r then r.1 else rest

  -- enforceWarmFloor
  unfoldable pub enforce_warm_floor : ℕ → World → World
  enforce_warm_floor warm w =
      let s = warm_census (numbers w.slots) w in
      if leb warm s.warm || not (enough_free floor (memory w))
      then w
      else boot_cold (warm - s.warm) (sort_by more_recent_use s.cold) w
