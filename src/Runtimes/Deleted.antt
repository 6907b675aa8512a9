-- ===== src/Runtimes/Deleted.antt =====
-- Which processes `reap --purge-orphan-runtimes` kills, and that it kills them all.
use simpool.Common.{
  ℕ, ◌≡◌, ◌≢◌, refl, inl, inr, Bool, true, false, List, [], ◌∷◌, ◌++◌, map, Option, none, some,
  arith, All, Bool-cases, ltb, any,
}
use simpool.Common.Sorting.{sort_by, sort_by-All}
use simpool.Text.{Text, text_eq, text_eq_iff}
use simpool.Procs.{Device}
use simpool.Poison.Recovery.{Kernel, Machine, Act, killed, kill_each}
use simpool.Poison.Kills.{Adds, Adds-trans, Adds-weaken}
use simpool.SimRuntime.{SimRuntimeProcess, EnvForPids, sim_runtime_processes}
use simpool.SimRuntime.Tagged.{Tagged, AllTagged, sim_runtime_processes-Tagged}
use simpool.Runtimes.{
  OrphanedRuntime, is_live, add_pid, grouped_by_udid, udid_before, sort_pids,
  find_orphaned_runtimes, kill_runtimes, kill_found, reap_orphan_runtimes,
}

-- No listed device has this UDID.
abbrev pub Gone : List Device → Text → Type 0
Gone ds udid = All (λ d. d.udid ≢ udid) ds

is_live-Gone : (ds : List Device) (udid : Text) → is_live ds udid ≡ false → Gone ds udid
unfolding any
is_live-Gone [] udid h = tt
is_live-Gone (d ∷ ds) udid h =
    (λ e. ground (arith, text_eq_iff d.udid udid), is_live-Gone ds udid (ground arith))

module _ (out : Text) (env : EnvForPids) where
  -- A pid that a process of a simulator that is gone has.
  abbrev pub Stray : List Device → ℕ → Type 0
  Stray ds n = (p : SimRuntimeProcess) × (p.pid ≡ n) × Tagged out env p × Gone ds p.udid

  abbrev Strays : List Device → OrphanedRuntime → Type 0
  Strays ds o = All (Stray ds) o.pids

  append_Stray :
      (ds : List Device) (xs : List ℕ) (n : ℕ)
      → All (Stray ds) xs
      → Stray ds n
      → All (Stray ds) (xs ++ n ∷ [])
  append_Stray ds [] n h k = (k, tt)
  append_Stray ds (x ∷ xs) n h k = (h.0, append_Stray ds xs n h.1 k)

  add_pid-Strays :
      (ds : List Device) (p : SimRuntimeProcess) (os : List OrphanedRuntime)
      → Stray ds p.pid
      → All (Strays ds) os
      → All (Strays ds) (add_pid p os)
  unfolding add_pid
  add_pid-Strays ds p [] s h = ((s, tt), tt)
  add_pid-Strays ds p (o ∷ os) s h = elim (Bool-cases (text_eq o.udid p.udid)) [
    | inl e ↦ rw e (append_Stray ds o.pids p.pid h.0 s, h.1)
    | inr e ↦ rw e (h.0, add_pid-Strays ds p os s h.1)
  ]

  grouped_by_udid-Strays :
      (ds : List Device) (acc : List OrphanedRuntime) (ps : List SimRuntimeProcess)
      → All (Tagged out env) ps
      → All (Strays ds) acc
      → All (Strays ds) (grouped_by_udid ds acc ps)
  unfolding grouped_by_udid
  grouped_by_udid-Strays ds acc [] t h = h
  grouped_by_udid-Strays ds acc (p ∷ ps) t h = elim (Bool-cases (is_live ds p.udid)) [
    | inl e ↦ rw e (grouped_by_udid-Strays ds acc ps t.1 h)
    | inr e ↦ rw e (
        grouped_by_udid-Strays ds (add_pid p acc) ps t.1
          (add_pid-Strays ds p acc (p, refl, t.0, is_live-Gone ds p.udid e) h))
  ]

  sort_pids-Strays :
      (ds : List Device) (os : List OrphanedRuntime)
      → All (Strays ds) os
      → All (Strays ds) (map sort_pids os)
  sort_pids-Strays ds [] h = tt
  sort_pids-Strays ds (o ∷ os) h =
      (sort_by-All ltb (Stray ds) o.pids h.0, sort_pids-Strays ds os h.1)

  -- A kill of such a process.
  abbrev pub KillsStray : List Device → Act → Type 0
  KillsStray ds (killed n) = Stray ds n
  KillsStray ds _ = ⊥

  module _ (k : Kernel) (ds : List Device) where
    kill_each-Strays :
        (pids : List ℕ) (w : Machine)
        → All (Stray ds) pids
        → Adds (KillsStray ds) w (kill_each k pids w)
    unfolding kill_each
    kill_each-Strays [] w h = ([], refl, tt)
    kill_each-Strays (p ∷ ps) w h =
        let v : Machine = record { os = k.kill p w.os; acts = killed p ∷ w.acts } in
        Adds-trans (KillsStray ds) w v (kill_each k ps v) (killed p ∷ [], refl, (h.0, tt))
          (kill_each-Strays ps v h.1)

    kill_runtimes-Strays :
        (os : List OrphanedRuntime) (w : Machine)
        → All (Strays ds) os
        → Adds (KillsStray ds) w (kill_runtimes k os w)
    unfolding kill_runtimes
    kill_runtimes-Strays [] w h = ([], refl, tt)
    kill_runtimes-Strays (o ∷ os) w h =
        let v = kill_each k o.pids w in
        Adds-trans (KillsStray ds) w v (kill_runtimes k os v) (kill_each-Strays o.pids w h.0)
          (kill_runtimes-Strays os v h.1)

-- The pass over left processes kills only a pid above 1 that stands in a line which ps printed, in
-- the listing of all processes for a launchd_sim, and for a program of a simulator's runtime in
-- the answer about the environments of those that the listing shows; the line names a simulator that
-- is not in a listing of devices, one that succeeded and is not empty. It does so only under
-- --purge-orphan-runtimes and outside a dry run, and does nothing else.
pub reap_orphan_runtimes-Kills :
    (k : Kernel) (argv : Option Text) (env : EnvForPids) (purge dry_run : Bool) (w : Machine)
    → Adds
        (λ a.
          (purge ≡ true)
          × (dry_run ≡ false)
          × ((ds : List Device) × (w.os.devices ≡ some ds)
              × (ds ≢ [])
              × ((out : Text) × (argv ≡ some out) × KillsStray out env ds a)))
        w
        (reap_orphan_runtimes k (sim_runtime_processes argv env) purge dry_run w)
unfolding reap_orphan_runtimes find_orphaned_runtimes
reap_orphan_runtimes-Kills k argv env purge dry_run w =
    by purge dry_run (sim_runtime_processes argv env) (sim_runtime_processes-Tagged argv env)
      w.os.devices refl
  where
    by :
        (purge dry_run : Bool) (found : Option (List SimRuntimeProcess))
        → AllTagged argv env found
        → (devices : Option (List Device)) → w.os.devices ≡ devices
        → Adds
            (λ a.
              (purge ≡ true)
              × (dry_run ≡ false)
              × ((ds : List Device) × (w.os.devices ≡ some ds)
                  × (ds ≢ [])
                  × ((out : Text) × (argv ≡ some out) × KillsStray out env ds a)))
            w
            (kill_found (find_orphaned_runtimes found devices) k purge dry_run w)
    by purge dry_run none t devices e = ([], refl, tt)
    by purge dry_run (some found) t none e = ([], refl, tt)
    by purge dry_run (some found) t (some []) e = ([], refl, tt)
    by false dry_run (some found) t (some (d ∷ ds)) e = ([], refl, tt)
    by true true (some found) t (some (d ∷ ds)) e = ([], refl, tt)
    by true false (some found) (out, listed, t) (some (d ∷ ds)) e =
        let found_of = grouped_by_udid (d ∷ ds) [] found in
        let os = map sort_pids (sort_by udid_before found_of) in
        let strays = sort_pids-Strays out env (d ∷ ds) (sort_by udid_before found_of) (
          sort_by-All udid_before (Strays out env (d ∷ ds)) found_of
            (grouped_by_udid-Strays out env (d ∷ ds) [] found t tt)) in
        Adds-weaken (KillsStray out env (d ∷ ds)) _ w (kill_runtimes k os w)
          (λ a s. (refl, refl, (d ∷ ds, e, (λ n. cc), (out, listed, s))))
          (kill_runtimes-Strays out env k (d ∷ ds) os w strays)
