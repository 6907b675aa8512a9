-- ===== src/Leases/Holding.antt =====
-- What AcquireLease returns: a lease that the key holds, and its own slot while it has one.
use simpool.Common.{
  ℕ, zero, suc, ◌+◌, ◌-◌, ◌≡◌, refl, inl, inr, false, ◌||◌, List, [], ◌∷◌, Option, none, some, ltb,
  ◌==◌, length, Bool-cases,
}
use simpool.Text.{Text, is_empty}
use simpool.Meta.{present}
use simpool.Group.{World, os_of, numbers, slot_at, shutdown_in_progress}
use simpool.Group.Slots.{slot_at-put_slot_self}
use simpool.Dispatch.{dispatch_order, fresh_number}
use simpool.Claims.{
  Context, SlotRefusal, LeaseClaim, lease_taken, lease_refused, lease_over_cap, lease_failed,
  write_lease, claim_slot_for_lease,
}
use simpool.Claims.Safety.{claim_slot_for_lease-Granted}
use simpool.Leases.{
  LeaseResult, leased, Pass, ends, goes_on, then_pass, pass_of, claim, claim_each, claim_again,
  wait_out_idle_shutdown, wait_each, claim_new, sticky_slot, fresh_lease, acquire_lease,
  lease_or_renew, result_of, is_busy,
}

module _ (c : Context) (key : Text) (ttl max : ℕ) where
  -- The slot that a result names carries this key's lease, for `ttl` from now.
  abbrev pub Held : LeaseResult → World → Type 0
  Held (leased n renewed) w =
      (slot_at n w.slots).lease_file
      ≡ present (record { key = key; expires_at = (os_of w).now + ttl })
  Held _ w = Unit {0}

  abbrev HeldAfter : Pass → Type 0
  HeldAfter (ends r w) = Held r w
  HeldAfter (goes_on refusals w) = Unit {0}

  then_pass-Held :
      (p : Pass) (f : List SlotRefusal → World → Pass)
      → HeldAfter p
      → ((refusals : List SlotRefusal) (w : World) → HeldAfter (f refusals w))
      → HeldAfter (then_pass p f)
  then_pass-Held (ends r w) f h k = h
  then_pass-Held (goes_on refusals w) f h k = k refusals w

  pass_of-Held :
      (n : ℕ) (refusals : List SlotRefusal) (r : LeaseClaim) (w : World)
      → (r ≡ lease_taken → Held (leased n false) w)
      → HeldAfter (pass_of n refusals (r, w))
  unfolding pass_of
  pass_of-Held n refusals lease_taken w h = h refl
  pass_of-Held n refusals (lease_refused av) w h = tt
  pass_of-Held n refusals (lease_over_cap uses) w h = tt
  pass_of-Held n refusals lease_failed w h = tt

  claim-Held :
      (n : ℕ) (refusals : List SlotRefusal) (w : World)
      → HeldAfter (claim c key ttl max n refusals w)
  unfolding claim
  claim-Held n refusals w =
      let r = claim_slot_for_lease c n key ttl max w in
      pass_of-Held n refusals r.0 r.1 (λ e. (claim_slot_for_lease-Granted c n key ttl max w e).3.0)

  claim_each-Held :
      (ns : List ℕ) (refusals : List SlotRefusal) (w : World)
      → HeldAfter (claim_each c key ttl max ns refusals w)
  unfolding claim_each
  claim_each-Held [] refusals w = tt
  claim_each-Held (n ∷ ns) refusals w =
      then_pass-Held (claim c key ttl max n refusals w) (claim_each c key ttl max ns)
        (claim-Held n refusals w) (claim_each-Held ns)

  claim_again-Held :
      (tries deadline n : ℕ) (refusals : List SlotRefusal) (w : World)
      → HeldAfter (claim_again c key ttl max tries deadline n refusals w)
  unfolding claim_again
  claim_again-Held zero deadline n refusals w = tt
  claim_again-Held (suc tries) deadline n refusals w =
      elim (Bool-cases (ltb (os_of w).now deadline)) [
        | inl e ↦
            rw (e, claim_again)
              (then_pass-Held (claim c key ttl max n refusals w) _ (claim-Held n refusals w)
                (λ _ w'. claim_again-Held tries deadline n refusals (c.sleep w')))
        | inr e ↦ rw (e, claim_again) tt
      ]

  wait_out-Held :
      (n : ℕ) (refusals : List SlotRefusal) (w : World)
      → HeldAfter (wait_out_idle_shutdown c key ttl max n refusals w)
  unfolding wait_out_idle_shutdown
  wait_out-Held n refusals w =
      elim (Bool-cases (shutdown_in_progress (os_of w) (slot_at n w.slots))) [
        | inl e ↦ rw (e, wait_out_idle_shutdown) (claim_again-Held 8 _ n refusals _)
        | inr e ↦ rw (e, wait_out_idle_shutdown) tt
      ]

  wait_each-Held :
      (rs refusals : List SlotRefusal) (w : World)
      → HeldAfter (wait_each c key ttl max rs refusals w)
  unfolding wait_each
  wait_each-Held [] refusals w = tt
  wait_each-Held (r ∷ rs) refusals w =
      elim (Bool-cases (is_busy c key ttl max r.availability.state)) [
        | inl e ↦
            rw (e, wait_each)
              (then_pass-Held (wait_out_idle_shutdown c key ttl max r.number refusals w)
                (wait_each c key ttl max rs) (wait_out-Held r.number refusals w)
                (wait_each-Held rs))
        | inr e ↦ rw (e, wait_each) (wait_each-Held rs refusals w)
      ]

  claim_new-Held :
      (room next : ℕ) (resident : List ℕ) (refusals : List SlotRefusal) (w : World)
      → HeldAfter (claim_new c key ttl max room next resident refusals w)
  unfolding claim_new
  claim_new-Held zero next resident refusals w = tt
  claim_new-Held (suc room) next resident refusals w =
      let n = fresh_number next resident in
      then_pass-Held (claim c key ttl max n refusals w)
        (claim_new c key ttl max room (n + 1) (n ∷ resident)) (claim-Held n refusals w)
        (claim_new-Held room (n + 1) (n ∷ resident))

  fresh_lease-Held : (w : World) → HeldAfter (fresh_lease c key ttl max w)
  unfolding fresh_lease
  fresh_lease-Held w =
      let order = dispatch_order c.want w.slots in
      then_pass-Held _ _ (claim_each-Held order.0 [] w) λ refused w₁.
        then_pass-Held _ _ (wait_each-Held refused refused w₁) λ refusals₂ w₂.
          then_pass-Held _ _
            (claim_new-Held (max - length (numbers w.slots)) 0 (numbers w.slots) refusals₂ w₂)
            (claim_each-Held order.1)

  result_of-Held : (p : Pass) → HeldAfter p → Held (result_of p).0 (result_of p).1
  result_of-Held (ends r w) h = h
  result_of-Held (goes_on refusals w) h = tt

  renewed-Held :
      (w : World) (o : Option ℕ) → let (r, w') = lease_or_renew c key ttl max w o in Held r w'
  unfolding write_lease
  renewed-Held w none = result_of-Held (fresh_lease c key ttl max w) (fresh_lease-Held w)
  renewed-Held w (some n) = simp slot_at-put_slot_self

  -- Whatever the machine answers and others do meanwhile: when AcquireLease returns a slot, that
  -- slot's lease.json holds the caller's key, and expires `ttl` after the time of the return.
  pub acquire_lease-Held : (w : World) → let (r, w') = acquire_lease c key ttl max w in Held r w'
  unfolding acquire_lease
  acquire_lease-Held w = elim (Bool-cases (is_empty key || ttl == 0 || max == 0)) [
    | inl e ↦ rw (e, acquire_lease) tt
    | inr e ↦ rw (e, acquire_lease) (renewed-Held w (sticky_slot (os_of w) key w.slots))
  ]
