-- ===== src/SlotCap/Floor.antt =====
-- The pass that enforces the cap does not take a group below it.
use simpool.Common.{
  ℕ, suc, ◌≤◌, ◌≡◌, refl, inl, inr, Bool, true, false, List, [], ◌∷◌, Option, none, some, arith,
  leb, length, Bool-cases, ap,
}
use simpool.Text.{Text}
use simpool.Procs.{Device}
use simpool.Poison.Recovery.{Kernel}
use simpool.Availability.{SlotDir, LockState, unlocked, locked, unopenable}
use simpool.Group.{Slots, World, numbers, slot_at, put_slot, unlock}
use simpool.Claims.{Context}
use simpool.SlotCap.{
  CapCandidate, drop_slot, remove_slot_dir_above, delete_device, classify, finish_eviction, evict,
  lock_existing, evict_each, enforce_slot_cap,
}

-- How many slots a group has.
abbrev pub size_of : World → ℕ
size_of w = length (numbers w.slots)

put_slot-grows :
    (n : ℕ) (d : SlotDir) (s : Slots) → length (numbers s) ≤ length (numbers (put_slot n d s))
unfolding put_slot
put_slot-grows n d [] = omega arith
put_slot-grows n d ((m, e) ∷ rest) = ground (arith, put_slot-grows n d rest)

drop_slot-le : (n : ℕ) (s : Slots) → length (numbers s) ≤ suc (length (numbers (drop_slot n s)))
unfolding drop_slot
drop_slot-le n [] = omega arith
drop_slot-le n ((m, e) ∷ rest) = ground (arith, drop_slot-le n rest)

unlock-grows : (n : ℕ) (w : World) → size_of w ≤ size_of (unlock n w)
unfolding unlock
unlock-grows n w = put_slot-grows n _ w.slots

-- Removing a directory above `max` leaves `max` of them, whatever the group had above that.
pub remove-keeps_max :
    (unlisted : Bool) (n max : ℕ) (w : World)
    → max ≤ size_of w
    → max ≤ size_of (remove_slot_dir_above unlisted n max w)
unfolding remove_slot_dir_above
remove-keeps_max unlisted n max w h = ground (arith, drop_slot-le n w.slots)

delete_device-slots :
    (k : Kernel) (d : Option Device) (udid : Text) (w : World)
    → (delete_device k d udid w).1.slots ≡ w.slots
unfolding delete_device
delete_device-slots k none udid w = refl
delete_device-slots k (some d) udid w = ground arith

module _ (c : Context) (unlisted : World → Bool) (mtime : ℕ → Option ℕ) (max : ℕ) where
  -- What other processes do meanwhile does not take the group below `max`.
  abbrev pub OthersKeep : Type 0
  OthersKeep = (w : World) → max ≤ size_of w → max ≤ size_of (c.sleep w)

  module _ (others : OthersKeep) where
    finish-keeps :
        (n : ℕ) (r : Bool × World)
        → max ≤ size_of r.1
        → max ≤ size_of (finish_eviction c unlisted mtime max n r)
    finish-keeps n (false, w) h = omega (arith, unlock-grows n w)
    finish-keeps n (true, w) h =
        let w₁ = c.sleep w in
        let w₂ = remove_slot_dir_above (unlisted w₁) n max w₁ in
        ground (arith, unlock-grows n w₂, remove-keeps_max (unlisted w₁) n max w₁ (others w h))

    evict-keeps :
        (n : ℕ) (re : CapCandidate) (w : World)
        → max ≤ size_of w
        → max ≤ size_of (evict c unlisted mtime max n re w)
    unfolding evict
    evict-keeps n re w h = elim (Bool-cases re.blocked) [
      | inl e ↦ ground (arith, unlock-grows n w)
      | inr e ↦
          let r = delete_device c.kernel re.device re.meta.udid w in
          rw (e, evict)
            (finish-keeps n r (
              omega (
                arith,
                ap (λ s. length (numbers s))
                    (delete_device-slots c.kernel re.device re.meta.udid w),
              )))
    ]

    lock_existing-keeps :
        (lock : LockState) (n : ℕ) (w : World)
        → max ≤ size_of w
        → max ≤ size_of (lock_existing c unlisted mtime max lock n w)
    lock_existing-keeps unlocked n w h =
        evict-keeps n (classify c unlisted mtime max n w)
          (record w { slots = put_slot n (record (slot_at n w.slots) { lock = locked }) w.slots })
          (omega (arith, put_slot-grows n (record (slot_at n w.slots) { lock = locked }) w.slots))
    lock_existing-keeps locked n w h = h
    lock_existing-keeps unopenable n w h = h

    evict_each-keeps :
        (xs : List CapCandidate) (w : World)
        → max ≤ size_of w
        → max ≤ size_of (evict_each c unlisted mtime max xs w)
    unfolding evict_each
    evict_each-keeps [] w h = h
    evict_each-keeps (x ∷ xs) w h =
        let w₁ = c.sleep w in
        let h₁ = others w h in
        ground (
          arith,
          evict_each-keeps xs w₁ h₁,
          evict_each-keeps xs
              (lock_existing c unlisted mtime max (slot_at x.number w₁.slots).lock x.number w₁)
              (lock_existing-keeps (slot_at x.number w₁.slots).lock x.number w₁ h₁),
        )

    -- If the other processes do not take the group below `max` slots meanwhile, the pass that
    -- enforces the cap leaves at least `max` of a group that had as many, whichever deletions,
    -- shutdowns and listings fail; and it does nothing to a group that is within the cap.
    pub enforce_slot_cap_keeps_max :
        (w : World)
        → (max ≤ size_of w → max ≤ size_of (enforce_slot_cap c unlisted mtime max w))
          × (size_of w ≤ max → enforce_slot_cap c unlisted mtime max w ≡ w)
    unfolding enforce_slot_cap
    enforce_slot_cap_keeps_max w = elim (Bool-cases (leb (size_of w) max)) [
      | inl e ↦ rw (e, enforce_slot_cap) (λ h. h, λ h. refl)
      | inr e ↦ rw (e, enforce_slot_cap) (λ h. evict_each-keeps _ w h, λ h. ground arith)
    ]
