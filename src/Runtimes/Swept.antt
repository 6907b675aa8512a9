-- ===== src/Runtimes/Swept.antt =====
-- That `reap --purge-orphan-runtimes` kills every process whose simulator is gone.
use simpool.Common.{
  ℕ, ◌≡◌, ◌≢◌, refl, ◌⊎◌, inl, inr, Bool, true, false, ◌||◌, List, [], ◌∷◌, ◌++◌, map, Option, some,
  arith, All, Bool-cases, ltb, ◌==◌, if◌then◌else◌, any, ◌∙◌, ap,
}
use simpool.Common.Sorting.{sort_by, any-sort_by}
use simpool.Text.{Text, text_eq, text_eq_iff}
use simpool.Procs.{Device}
use simpool.Poison.Recovery.{Kernel, Machine, Act, killed, kill_each}
use simpool.SimRuntime.{SimRuntimeProcess}
use simpool.Runtimes.{
  OrphanedRuntime, is_live, add_pid, grouped_by_udid, udid_before, sort_pids,
  find_orphaned_runtimes, kill_runtimes, kill_found, reap_orphan_runtimes,
}
use simpool.Runtimes.Deleted.{Gone}

-- One of the acts is a kill of this pid.
abbrev pub Kills : ℕ → List Act → Type 0
Kills n [] = ⊥
Kills n (a ∷ acts) = (a ≡ killed n) ⊎ Kills n acts

abbrev is_of : ℕ → List ℕ → Bool
is_of n pids = any (λ x. x == n) pids

abbrev covers : ℕ → List OrphanedRuntime → Bool
covers n os = any (λ o. is_of n o.pids) os

is_of-append : (n : ℕ) (xs : List ℕ) (m : ℕ) → is_of n (xs ++ m ∷ []) ≡ (is_of n xs || (m == n))
unfolding any
is_of-append n [] m = ground arith
is_of-append n (x ∷ xs) m = ground (arith, is_of-append n xs m)

covers-add_pid :
    (n : ℕ) (p : SimRuntimeProcess) (os : List OrphanedRuntime)
    → covers n (add_pid p os) ≡ ((p.pid == n) || covers n os)
unfolding add_pid any
covers-add_pid n p [] = ground arith
covers-add_pid n p (o ∷ os) = elim (Bool-cases (text_eq o.udid p.udid)) [
  | inl e ↦ rw e ground (arith, is_of-append n o.pids p.pid)
  | inr e ↦ rw e ground (arith, covers-add_pid n p os)
]

covers-grouped_by_udid :
    (ds : List Device) (n : ℕ) (acc : List OrphanedRuntime) (ps : List SimRuntimeProcess)
    → covers n acc ≡ true
    → covers n (grouped_by_udid ds acc ps) ≡ true
unfolding grouped_by_udid
covers-grouped_by_udid ds n acc [] h = h
covers-grouped_by_udid ds n acc (p ∷ ps) h = elim (Bool-cases (is_live ds p.udid)) [
  | inl e ↦ rw e (covers-grouped_by_udid ds n acc ps h)
  | inr e ↦
      rw e (covers-grouped_by_udid ds n (add_pid p acc) ps ground (arith, covers-add_pid n p acc))
]

covers_each :
    (ds : List Device) (acc : List OrphanedRuntime) (ps : List SimRuntimeProcess)
    → All (λ p. is_live ds p.udid ≡ false → covers p.pid (grouped_by_udid ds acc ps) ≡ true) ps
unfolding grouped_by_udid
covers_each ds acc [] = tt
covers_each ds acc (p ∷ ps) = (
  λ e. rw e (
      covers-grouped_by_udid ds p.pid (add_pid p acc) ps ground
        (arith, covers-add_pid p.pid p acc)),
  covers_each ds (if is_live ds p.udid then acc else add_pid p acc) ps,
)

covers-map : (n : ℕ) (os : List OrphanedRuntime) → covers n (map sort_pids os) ≡ covers n os
unfolding any
covers-map n [] = refl
covers-map n (o ∷ os) = ground (arith, any-sort_by ltb (λ x. x == n) o.pids, covers-map n os)

Gone-live : (ds : List Device) (udid : Text) → Gone ds udid → is_live ds udid ≡ false
unfolding any
Gone-live [] udid h = refl
Gone-live (d ∷ ds) udid h = elim (Bool-cases (text_eq d.udid udid)) [
  | inl e ↦ absurd (h.0 ((text_eq_iff d.udid udid).0 e))
  | inr e ↦ rw e (Gone-live ds udid h.1)
]

module _ (k : Kernel) (n : ℕ) where
  kill_each_keeps :
      (pids : List ℕ) (w : Machine) → Kills n w.acts → Kills n (kill_each k pids w).acts
  unfolding kill_each
  kill_each_keeps [] w h = h
  kill_each_keeps (p ∷ ps) w h =
      kill_each_keeps ps (record { os = k.kill p w.os; acts = killed p ∷ w.acts }) (inr h)

  kill_each-Kills :
      (pids : List ℕ) (w : Machine) → is_of n pids ≡ true → Kills n (kill_each k pids w).acts
  unfolding kill_each any
  kill_each-Kills [] w h = cc
  kill_each-Kills (p ∷ ps) w h =
      let v : Machine = record { os = k.kill p w.os; acts = killed p ∷ w.acts } in
      elim (Bool-cases (p == n)) [
        | inl e ↦ kill_each_keeps ps v (inl (ap killed ground arith))
        | inr e ↦ kill_each-Kills ps v ground arith
      ]

  kill_runtimes_keeps :
      (os : List OrphanedRuntime) (w : Machine)
      → Kills n w.acts
      → Kills n (kill_runtimes k os w).acts
  unfolding kill_runtimes
  kill_runtimes_keeps [] w h = h
  kill_runtimes_keeps (o ∷ os) w h =
      kill_runtimes_keeps os (kill_each k o.pids w) (kill_each_keeps o.pids w h)

  kill_runtimes-Kills :
      (os : List OrphanedRuntime) (w : Machine)
      → covers n os ≡ true
      → Kills n (kill_runtimes k os w).acts
  unfolding kill_runtimes any
  kill_runtimes-Kills [] w h = cc
  kill_runtimes-Kills (o ∷ os) w h = elim (Bool-cases (is_of n o.pids)) [
    | inl e ↦ kill_runtimes_keeps os (kill_each k o.pids w) (kill_each-Kills o.pids w e)
    | inr e ↦ kill_runtimes-Kills os (kill_each k o.pids w) ground arith
  ]

-- Under --purge-orphan-runtimes and outside a dry run, and when the listing of devices succeeds
-- and is not empty, the pass over left processes kills every process of the snapshot whose
-- simulator the listing does not have.
pub reap_orphan_runtimes_sweeps :
    (k : Kernel) (found : List SimRuntimeProcess) (ds : List Device) (w : Machine)
    → w.os.devices ≡ some ds
    → ds ≢ []
    → All
        (λ p. Gone ds p.udid → Kills p.pid (reap_orphan_runtimes k (some found) true false w).acts)
        found
unfolding reap_orphan_runtimes find_orphaned_runtimes
reap_orphan_runtimes_sweeps k found [] w e h = absurd (h refl)
reap_orphan_runtimes_sweeps k found (d ∷ ds) w e h = of_listing w.os.devices e
  where
    os : List OrphanedRuntime
    os = sort_by udid_before (grouped_by_udid (d ∷ ds) [] found)

    go :
        (ps : List SimRuntimeProcess)
        → All
            (λ p.
              is_live (d ∷ ds) p.udid ≡ false
              → covers p.pid (grouped_by_udid (d ∷ ds) [] found) ≡ true)
            ps
        → All
            (λ p. Gone (d ∷ ds) p.udid → Kills p.pid (kill_runtimes k (map sort_pids os) w).acts)
            ps
    go [] c = tt
    go (p ∷ ps) c = (
      λ gone. kill_runtimes-Kills k p.pid (map sort_pids os) w (
          covers-map p.pid os
          ∙ any-sort_by udid_before (λ o. is_of p.pid o.pids) (grouped_by_udid (d ∷ ds) [] found)
          ∙ c.0 (Gone-live (d ∷ ds) p.udid gone)),
      go ps c.1,
    )

    of_listing :
        (devices : Option (List Device))
        → devices ≡ some (d ∷ ds)
        → All
            (λ p.
              Gone (d ∷ ds) p.udid
              → Kills p.pid
                  (kill_found (find_orphaned_runtimes (some found) devices) k true false w).acts)
            found
    of_listing devices f = rw f (go found (covers_each (d ∷ ds) [] found))
