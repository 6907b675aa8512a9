-- ===== src/Acquire/Taking.antt =====
-- internal/pool/slot.go: what one `take` does to the locks of the group, and whom it gives a slot.
use simpool.Common.{
  ℕ, ◌≡◌, refl, ◌≢◌, ◌⊎◌, inl, inr, true, false, List, [], ◌∷◌, ◌++◌, arith, if◌then◌else◌, has,
  has-append, Bool-cases, ap, ◌∙◌,
}
use simpool.Meta.{Meta}
use simpool.Poison.{Poison}
use simpool.Availability.{
  Availability, SlotState, slot_free, slot_busy, slot_leased, slot_quarantined, slot_unverifiable,
  locked, unlocked, slot_availability_locked,
}
use simpool.Group.{
  World, os_of, slot_at, Claim, claim_taken, claim_busy, claim_over_use_cap, claim_failed,
  claim_slot_lock_capped, unlock,
}
use simpool.Group.Slots.{Ascends, slot_at-put_slot, put_slot-Ascends}
use simpool.Group.Cap.{claim_else, claim_taken_found, locked_at}
use simpool.Claims.{Context, recover_slot}
use simpool.Claims.Safety.{Grantable, grantable, locked_availability}
use simpool.Acquire.{Walk, take, after_take, decide_take}

-- No slot's lock or lease differs between two worlds, the second one's slots still in order.
abbrev pub SameLocks : World → World → Type 0
SameLocks w w' =
    Ascends 0 w'.slots
    × ((m : ℕ) → (slot_at m w'.slots).lock ≡ (slot_at m w.slots).lock)
    × ((m : ℕ) → (slot_at m w'.slots).lease_file ≡ (slot_at m w.slots).lease_file)

-- Since `w`, exactly the slots `xs` have been locked: they were all unlocked and differ from each
-- other, and no other lock and no lease has changed.
abbrev pub Holds : World → List ℕ → World → Type 0
Holds w xs w' =
    Ascends 0 w'.slots
    × ((m : ℕ)
        → (slot_at m w'.slots).lock ≡ (if has m xs then locked else (slot_at m w.slots).lock))
    × ((m : ℕ) → has m xs ≡ true → (slot_at m w.slots).lock ≡ unlocked)
    × ((m : ℕ) → (slot_at m w'.slots).lease_file ≡ (slot_at m w.slots).lease_file)

-- A list in which no number comes twice.
abbrev pub Distinct : List ℕ → Type 0
Distinct [] = Unit {0}
Distinct (x ∷ xs) = (has x xs ≡ false) × Distinct xs

pub Holds-SameLocks :
    (w w₁ w₂ : World) (xs : List ℕ) → Holds w xs w₁ → SameLocks w₁ w₂ → Holds w xs w₂
Holds-SameLocks w w₁ w₂ xs h s = (s.0, λ m. s.1 m ∙ h.1 m, h.2, λ m. s.2 m ∙ h.3 m)

pub Distinct-append :
    (xs : List ℕ) (n : ℕ) → Distinct xs → has n xs ≡ false → Distinct (xs ++ n ∷ [])
unfolding has
Distinct-append [] n d h = (refl, tt)
Distinct-append (x ∷ xs) n d h =
    (ground (arith, has-append x xs (n ∷ [])), Distinct-append xs n d.1 (ground arith))

pub recover_slot-SameLocks :
    (c : Context) (n : ℕ) (m : Meta) (p : Poison) (w : World)
    → Ascends 0 w.slots
    → SameLocks w (recover_slot c n m p w).1
unfolding recover_slot
recover_slot-SameLocks c n m p w a = (
  put_slot-Ascends 0 n _ w.slots (omega arith) a,
  λ k. rw slot_at-put_slot (ground arith),
  λ k. rw slot_at-put_slot (ground arith),
)

-- Locking an unlocked slot, and giving it back.
locked_at-Holds :
    (w : World) (xs : List ℕ) (k : World) (n : ℕ)
    → Holds w xs k
    → (slot_at n k.slots).lock ≡ unlocked
    → Holds w (xs ++ n ∷ []) (locked_at n k)
unfolding has
locked_at-Holds w xs k n h free = (
  put_slot-Ascends 0 n _ k.slots (omega arith) h.0,
  λ m. rw slot_at-put_slot (ground (arith, h.1 m, has-append m xs (n ∷ []))),
  λ m e. ground (arith, h.1 m, h.2 m, has-append m xs (n ∷ [])),
  λ m. rw slot_at-put_slot (ground (arith, h.3 m)),
)

fresh_of :
    (w : World) (xs : List ℕ) (k : World) (n : ℕ)
    → Holds w xs k
    → (slot_at n k.slots).lock ≡ unlocked
    → has n xs ≡ false
fresh_of w xs k n h free = ground (arith, h.1 n)

unlock-SameLocks :
    (n : ℕ) (k w w' : World)
    → SameLocks k w'
    → (slot_at n w.slots).lock ≡ unlocked
    → k ≡ locked_at n w
    → SameLocks w (unlock n w')
unfolding unlock
unlock-SameLocks n k w w' s free e =
    let t : SameLocks (locked_at n w) w' = rw e at s in
    let held = record (slot_at n w.slots) { lock = locked } in
    (
      put_slot-Ascends 0 n _ w'.slots (omega arith) s.0,
      λ m. rw slot_at-put_slot (ground (arith, t.1 m, slot_at-put_slot n m held w.slots)),
      λ m. rw slot_at-put_slot (ground (arith, t.2 m, slot_at-put_slot n m held w.slots)),
    )

-- Why a slot of the given state is kept, `w` the world in which its flock is held.
abbrev Keepable : Context → ℕ → SlotState → Availability → World → Type 0
Keepable c n st av w =
    (st ≡ slot_free) ⊎ ((st ≡ slot_quarantined) × ((recover_slot c n av.meta av.poison w).0 ≡ true))

-- Either the slot is kept, or its flock is given back.
abbrev Decided : Context → ℕ → SlotState → Availability → Walk → Walk → Type 0
Decided c n st av k k' =
    (Keepable c n st av k.world × (k'.acquired ≡ k.acquired ++ n ∷ []) × SameLocks k.world k'.world)
    ⊎ ((k'.acquired ≡ k.acquired)
        × ((w : World)
            → (slot_at n w.slots).lock ≡ unlocked
            → k.world ≡ locked_at n w
            → SameLocks w k'.world))

module _ (c : Context) (n : ℕ) where
  decide_take-Decided :
      (st : SlotState) (av : Availability) (k : Walk)
      → Ascends 0 k.world.slots
      → Decided c n st av k (decide_take st c n av k)
  unfolding decide_take
  decide_take-Decided slot_free av k a = inl (inl refl, refl, (a, λ m. refl, λ m. refl))
  decide_take-Decided slot_quarantined av k a =
      let s = recover_slot-SameLocks c n av.meta av.poison k.world a in
      elim (Bool-cases (recover_slot c n av.meta av.poison k.world).0) [
        | inl e ↦ rw (e, decide_take) (inl (inr (refl, refl), refl, s))
        | inr e ↦ rw (e, decide_take) (inr (refl, λ w. unlock-SameLocks n k.world w _ s))
      ]
  decide_take-Decided slot_busy av k a =
      inr (refl, λ w. unlock-SameLocks n k.world w k.world (a, λ m. refl, λ m. refl))
  decide_take-Decided slot_leased av k a =
      inr (refl, λ w. unlock-SameLocks n k.world w k.world (a, λ m. refl, λ m. refl))
  decide_take-Decided slot_unverifiable av k a =
      inr (refl, λ w. unlock-SameLocks n k.world w k.world (a, λ m. refl, λ m. refl))

-- What `take` does to the slots that the call holds: nothing, or it adds one that it may use.
abbrev pub Took : Context → ℕ → Walk → Walk → Type 0
Took c n k k' =
    (k'.acquired ≡ k.acquired)
    ⊎ ((k'.acquired ≡ k.acquired ++ n ∷ []) × (has n k.acquired ≡ false) × Grantable c n [] k.world)

module _ (c : Context) (max n : ℕ) (w : World) where
  kept_or_given_back :
      (av : Availability) (k : Walk) (w₁ : World)
      → Holds w k.acquired k.world
      → (slot_at n k.world.slots).lock ≡ unlocked
      → w₁ ≡ locked_at n k.world
      → av ≡ slot_availability_locked (os_of k.world) (slot_at n k.world.slots) []
      → let k' = decide_take av.state c n av (record k { world = w₁ }) in
        Holds w k'.acquired k'.world × Took c n k k'
  kept_or_given_back av k w₁ h free e f =
      let h₁ : Holds w (k.acquired ++ n ∷ []) w₁ =
        rw e (locked_at-Holds w k.acquired k.world n h free) in
      let k₁ = record k { world = w₁ } in
      let k₂ = decide_take av.state c n av k₁ in
      elim (decide_take-Decided c n av.state av k₁ h₁.0) [
        | inl (why, added, same) ↦ (
          rw added (Holds-SameLocks w w₁ k₂.world (k.acquired ++ n ∷ []) h₁ same),
          inr (
            added,
            fresh_of w k.acquired k.world n h free,
            grantable c n [] k.world (rw (f, e) at why),
          ),
        )
        | inr (kept, same) ↦ (
          rw kept (Holds-SameLocks w k.world k₂.world k.acquired h (same k.world free e)),
          inl kept,
        )
      ]

  after_take-Holds :
      (claim : Claim) (k : Walk) (w₁ : World)
      → Holds w k.acquired k.world
      → ((claim ≡ claim_taken)
          × ((slot_at n k.world.slots).lock ≡ unlocked)
          × (w₁ ≡ locked_at n k.world))
        ⊎ ((claim ≢ claim_taken) × SameLocks k.world w₁)
      → let k' = (after_take claim c n (record k { world = w₁ })).1 in
        Holds w k'.acquired k'.world × Took c n k k'
  unfolding after_take
  after_take-Holds claim_taken k w₁ h (inl (t, free, e)) =
      kept_or_given_back _ k w₁ h free e (rw e (locked_availability c n [] k.world))
  after_take-Holds claim_taken k w₁ h (inr (ne, s)) = absurd (ne refl)
  after_take-Holds claim_busy k w₁ h (inl (t, free, e)) = cc
  after_take-Holds claim_busy k w₁ h (inr (ne, s)) =
      (Holds-SameLocks w k.world w₁ k.acquired h s, inl refl)
  after_take-Holds (claim_over_use_cap uses) k w₁ h (inl (t, free, e)) = cc
  after_take-Holds (claim_over_use_cap uses) k w₁ h (inr (ne, s)) =
      (Holds-SameLocks w k.world w₁ k.acquired h s, inl refl)
  after_take-Holds claim_failed k w₁ h (inl (t, free, e)) = cc
  after_take-Holds claim_failed k w₁ h (inr (ne, s)) =
      (Holds-SameLocks w k.world w₁ k.acquired h s, inl refl)

  -- One `take` keeps the record of what the call holds true.
  pub take-Holds :
      (k : Walk)
      → Holds w k.acquired k.world
      → Holds w (take c max n k).1.acquired (take c max n k).1.world × Took c n k (take c max n k).1
  unfolding take
  take-Holds k h =
      let x = claim_slot_lock_capped n max k.acquired [] k.world in
      elim (claim_else n max k.acquired [] k.world) [
        | inl t ↦
            let f = claim_taken_found n max k.acquired [] k.world t in
            after_take-Holds x.0 k x.1 h (inl (t, f.0, f.1))
        | inr (ne, s) ↦ after_take-Holds x.0 k x.1 h (
            inr (ne, (s.0 h.0, λ m. ap (λ d. d.lock) (s.1 m), λ m. ap (λ d. d.lease_file) (s.1 m))))
      ]
