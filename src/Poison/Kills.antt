-- ===== src/Poison/Kills.antt =====
-- What recovery may do to processes and devices, and what it has achieved when it succeeds.
use simpool.Common.{
  ℕ, ◌<◌, ◌≡◌, refl, ◌⊎◌, inl, inr, true, false, not, ◌&&◌, List, [], ◌∷◌, ◌++◌, Option, none, some,
  arith, any, All, Bool-cases, ◌∙◌, ap, Option-cases, zero, suc, ◌≢◌,
}
use simpool.Text.{Text, text_eq, text_eq_iff, is_empty}
use simpool.Meta.{Meta, with_mode}
use simpool.Procs.{Os, Signal0, delivered, no_process, refused, alive, pgid_alive, live_consumers}
use simpool.Poison.{
  Poison, PoisonReason, OwnerDeclaration, not_poisoned, by_consumer_pgid, by_live_consumers,
  by_check_failure, by_orphaned_residue, is_reclaimable_residue, verify_consumer_identity,
  all_reclaimable_residue,
}
use simpool.Poison.Verdict.{all_reclaimable_residue-Evidence}
use simpool.Poison.PidSets.{same_pid_set_iff, all_of_count}
use simpool.Poison.Recovery.{
  Act, killed_group, killed, shut_down, deleted, booted, scrubbed, Kernel, Machine, Recovery, count,
  device_belongs_to_slot, kill_each, kill_and_verify, may_reclaim, reclaim_orphaned_residue,
  recover_group, recover_by, attempt_recovery_for, still_holds,
}

-- The acts of `w'` are those of `w` with some before them, all of which satisfy `P`.
abbrev pub Adds : (Act → Type 0) → Machine → Machine → Type 0
Adds P w w' = (new : List Act) × (w'.acts ≡ new ++ w.acts) × All P new

-- When an act of a recovery is justified: by what the machine showed before it, and for a shutdown
-- by what it shows after the signal and the wait.
abbrev pub Justified : Kernel → Os → Text → Meta → Poison → Act → Type 0
Justified k os expected m p (killed_group g) =
    (p.reason ≡ by_consumer_pgid)
    × (g ≡ p.pgid)
    × (m.mode ≡ with_mode)
    × (verify_consumer_identity os m ≡ true)
Justified k os expected m p (killed q) =
    (p.reason ≡ by_orphaned_residue)
    × (0 < count q p.residue_pids)
    × (is_reclaimable_residue os m.udid q ≡ true)
    × (device_belongs_to_slot os m.udid expected ≡ true)
Justified k os expected m p (shut_down u) =
    (p.reason ≡ by_consumer_pgid)
    × (u ≡ m.udid)
    × (device_belongs_to_slot (k.wait (k.kill_group p.pgid os).1) u expected ≡ true)
Justified k os expected m p (deleted u) = ⊥
Justified k os expected m p (booted u) = ⊥
Justified k os expected m p (scrubbed u) = ⊥

regroup : (xs : List Act) (a : Act) (ys : List Act) → xs ++ a ∷ ys ≡ (xs ++ a ∷ []) ++ ys
regroup [] a ys = refl
regroup (x ∷ xs) a ys = ap (◌∷◌ x) (regroup xs a ys)

pub append_assoc : (xs ys zs : List Act) → xs ++ (ys ++ zs) ≡ (xs ++ ys) ++ zs
append_assoc [] ys zs = refl
append_assoc (x ∷ xs) ys zs = ap (◌∷◌ x) (append_assoc xs ys zs)

module _ (P : Act → Type 0) where
  pub append_All : (xs ys : List Act) → All P xs → All P ys → All P (xs ++ ys)
  append_All [] ys hx hy = hy
  append_All (x ∷ xs) ys hx hy = (hx.0, append_All xs ys hx.1 hy)

  pub Adds-trans : (w v u : Machine) → Adds P w v → Adds P v u → Adds P w u
  Adds-trans w v u (new, e, a) (later, f, b) = (
    later ++ new,
    f ∙ ap (λ acts. later ++ acts) e ∙ append_assoc later new w.acts,
    append_All later new b a,
  )

pub All-weaken :
    (P Q : Act → Type 0) → ((a : Act) → P a → Q a) → (xs : List Act) → All P xs → All Q xs
All-weaken P Q f [] h = tt
All-weaken P Q f (x ∷ xs) h = (f x h.0, All-weaken P Q f xs h.1)

pub Adds-weaken :
    (P Q : Act → Type 0) (w v : Machine) → ((a : Act) → P a → Q a) → Adds P w v → Adds Q w v
Adds-weaken P Q w v f (new, e, h) = (new, e, All-weaken P Q f new h)

module _ (k : Kernel) (P : Act → Type 0) where
  pub kill_each-Adds :
      (pids : List ℕ) (w : Machine)
      → ((q : ℕ) → 0 < count q pids → P (killed q))
      → Adds P w (kill_each k pids w)
  unfolding kill_each count
  kill_each-Adds [] w h = ([], refl, tt)
  kill_each-Adds (p ∷ ps) w h =
      let (new, e, a) =
        kill_each-Adds ps (record { os = k.kill p w.os; acts = killed p ∷ w.acts })
          (λ q c. h q (ground arith)) in
      (
        new ++ killed p ∷ [],
        e ∙ regroup new (killed p) w.acts,
        append_All P new (killed p ∷ []) a (h p (ground arith), tt),
      )

still_holds-residue :
    (os : Os) (m : Meta) (p : Poison) (d : OwnerDeclaration) (live : Option (List ℕ)) (q : ℕ)
    → still_holds os m p d live ≡ true
    → 0 < count q p.residue_pids
    → is_reclaimable_residue os m.udid q ≡ true
still_holds-residue os m p d none q h c = cc
still_holds-residue os m p d (some live) q h c =
    elim (Option-cases (all_reclaimable_residue os m live d)) [
      | inl e ↦ cc (rw (e, still_holds) at h)
      | inr (v, e) ↦
          let same = (same_pid_set_iff live p.residue_pids).0 (ground (arith, h, e)) in
          all_of_count (is_reclaimable_residue os m.udid) live q
            (all_reclaimable_residue-Evidence os m live d e).0 (rw (same q) c)
    ]

-- Every pid that is about to be killed is reclaimable residue on the machine as it is now, and the
-- device is this slot's own.
may_reclaim-residue :
    (os : Os) (expected : Text) (m : Meta) (p : Poison) (d : OwnerDeclaration) (q : ℕ)
    → may_reclaim os expected m p d ≡ true
    → 0 < count q p.residue_pids
    → (is_reclaimable_residue os m.udid q ≡ true)
      × (device_belongs_to_slot os m.udid expected ≡ true)
unfolding may_reclaim
may_reclaim-residue os expected m p d q h c =
    (still_holds-residue os m p d (live_consumers os m.udid) q (ground arith) c, ground arith)

module _ (k : Kernel) (expected : Text) (m : Meta) (p : Poison) (d : OwnerDeclaration)
    (w : Machine) where
  reclaim-Adds :
      p.reason ≡ by_orphaned_residue
      → Adds (Justified k w.os expected m p) w (reclaim_orphaned_residue k expected m p d w).1
  unfolding reclaim_orphaned_residue kill_and_verify
  reclaim-Adds r = elim (Bool-cases (may_reclaim w.os expected m p d)) [
    | inl e ↦ rw e (
        kill_each-Adds k (Justified k w.os expected m p) p.residue_pids w
          λ q c. let f = may_reclaim-residue w.os expected m p d q e c in (r, c, f.0, f.1))
    | inr e ↦ rw e ([], refl, tt)
  ]

  recover_group-Adds :
      p.reason ≡ by_consumer_pgid
      → m.mode ≡ with_mode
      → verify_consumer_identity w.os m ≡ true
      → Adds (Justified k w.os expected m p) w (recover_group k expected m p.pgid w).machine
  unfolding recover_group
  recover_group-Adds r mode v =
      let sent = k.kill_group p.pgid w.os in
      let os₂ = k.wait sent.1 in
      let one : All (Justified k w.os expected m p) (killed_group p.pgid ∷ []) =
        ((r, refl, mode, v), tt) in
      elim (Bool-cases sent.0) [
        | inr e ↦ rw e (killed_group p.pgid ∷ [], refl, one)
        | inl e ↦ rw e (elim (Bool-cases (pgid_alive os₂ p.pgid)) [
          | inl a ↦ rw a (killed_group p.pgid ∷ [], refl, one)
          | inr a ↦
              rw a
                (elim (Bool-cases
                  (not (is_empty m.udid) && device_belongs_to_slot os₂ m.udid expected)) [
                    | inl own ↦ rw own (
                      shut_down m.udid ∷ killed_group p.pgid ∷ [],
                      refl,
                      ((r, refl, ground arith), one),
                    )
                    | inr own ↦ rw own (killed_group p.pgid ∷ [], refl, one)
                  ])
        ])
      ]

  recover_by-Adds :
      (r : PoisonReason)
      → p.reason ≡ r
      → Adds (Justified k w.os expected m p) w (recover_by r k expected m p d w).machine
  unfolding recover_by
  recover_by-Adds not_poisoned e = ([], refl, tt)
  recover_by-Adds by_live_consumers e = ([], refl, tt)
  recover_by-Adds by_check_failure e = ([], refl, tt)
  recover_by-Adds by_orphaned_residue e = reclaim-Adds e
  recover_by-Adds by_consumer_pgid e =
      elim (Bool-cases (text_eq m.mode with_mode && verify_consumer_identity w.os m)) [
        | inl t ↦
            rw t (
              recover_group-Adds e ((text_eq_iff m.mode with_mode).0 (ground arith)) (ground arith))
        | inr t ↦ rw t ([], refl, tt)
      ]

  -- Whatever the machine answers, a recovery kills a process group only if it is the one the verdict names,
  -- of a `with` consumer whose start time is the recorded one; it kills a process only if the
  -- verdict names it, it is residue on this machine now and the device bears this slot's name; it
  -- shuts down a device only under this slot's name; and it deletes none.
  pub attempt_recovery-Justified :
      Adds (Justified k w.os expected m p) w (attempt_recovery_for k expected m p d w).machine
  unfolding attempt_recovery_for
  attempt_recovery-Justified = recover_by-Adds p.reason refl

-- Signal 0 is not delivered to the process: there is none of this pid, or it is not ours to signal.
abbrev pub Unreached : Os → ℕ → Type 0
Unreached os q = (q ≡ 0) ⊎ (os.signal_pid q ≢ delivered)

pub none_alive-Unreached :
    (os : Os) (pids : List ℕ) → any (alive os) pids ≡ false → All (Unreached os) pids
unfolding any alive
none_alive-Unreached os [] h = tt
none_alive-Unreached os (zero ∷ pids) h = (inl refl, none_alive-Unreached os pids ground arith)
none_alive-Unreached os (suc q ∷ pids) h =
    (inr (λ e. cc (rw (e, alive) at h)), none_alive-Unreached os pids ground arith)

-- There is no process group of this number.
abbrev pub NoGroup : Os → ℕ → Type 0
NoGroup os g = (g ≡ 0) ⊎ (os.signal_group g ≡ no_process)

dead_group-NoGroup : (os : Os) (g : ℕ) → pgid_alive os g ≡ false → NoGroup os g
unfolding pgid_alive
dead_group-NoGroup os zero h = inl refl
dead_group-NoGroup os (suc g) h = by (os.signal_group (suc g)) refl h
  where
    by :
        (r : Signal0)
        → os.signal_group (suc g) ≡ r
        → elim r [ no_process ↦ false | _ ↦ true ] ≡ false
        → NoGroup os (suc g)
    by no_process e f = inr e
    by delivered e f = cc
    by refused e f = cc

-- What a recovery that succeeds has achieved.
abbrev pub Achieved : PoisonReason → Kernel → Meta → Poison → Machine → Recovery → Type 0
Achieved by_orphaned_residue k m p w r = All (Unreached r.machine.os) p.residue_pids × (r.meta ≡ m)
Achieved by_consumer_pgid k m p w r =
    NoGroup (k.wait (k.kill_group p.pgid w.os).1) p.pgid
    × (r.meta ≡ record m { consumer_pgid = 0; consumer_started_at = [] })
Achieved _ k m p w r = ⊥

module _ (k : Kernel) (expected : Text) (m : Meta) (p : Poison) (d : OwnerDeclaration)
    (w : Machine) where
  recover_by-Achieved :
      (r : PoisonReason)
      → let out = recover_by r k expected m p d w in
        ((out.recovered ≡ true) × Achieved r k m p w out)
        ⊎ ((out.recovered ≡ false) × (out.meta ≡ m))
  unfolding recover_by reclaim_orphaned_residue kill_and_verify recover_group
  recover_by-Achieved not_poisoned = inr (refl, refl)
  recover_by-Achieved by_live_consumers = inr (refl, refl)
  recover_by-Achieved by_check_failure = inr (refl, refl)
  recover_by-Achieved by_orphaned_residue = elim (Bool-cases (may_reclaim w.os expected m p d)) [
    | inl e ↦
        let os₂ = k.wait (kill_each k p.residue_pids w).os in
        rw e (elim (Bool-cases (any (alive os₂) p.residue_pids)) [
          | inl a ↦ rw a (inr (refl, refl))
          | inr a ↦ rw a (inl (refl, (none_alive-Unreached os₂ p.residue_pids a, refl)))
        ])
    | inr e ↦ rw e (inr (refl, refl))
  ]
  recover_by-Achieved by_consumer_pgid =
      let group = dead_group-NoGroup (k.wait (k.kill_group p.pgid w.os).1) p.pgid in
      ground (arith, group)

  -- A recovery either succeeds, or it fails and leaves meta.json as it was. When it succeeds on
  -- residue, signal 0 is no longer delivered to any of the residue processes: there is none of the
  -- pid, or the one there is not ours to signal (EPERM, which the code takes for dead). When it
  -- succeeds on a process group, its number is 0 or kill(2) has answered that there is no such group,
  -- and its fingerprint is cleared from meta.json. It never succeeds on live consumers, on a failed check
  -- or on a clean slot.
  pub attempt_recovery-Achieved :
      let out = attempt_recovery_for k expected m p d w in
      ((out.recovered ≡ true) × Achieved p.reason k m p w out)
      ⊎ ((out.recovered ≡ false) × (out.meta ≡ m))
  unfolding attempt_recovery_for
  attempt_recovery-Achieved = recover_by-Achieved p.reason
