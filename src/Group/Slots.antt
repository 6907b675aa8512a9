-- ===== src/Group/Slots.antt =====
-- Reading and writing the slot directories of a group.
use simpool.Common.{
  ℕ, suc, ◌≤◌, ◌<◌, ◌≡◌, refl, ◌≢◌, false, ◌||◌, [], ◌∷◌, arith, ◌==◌, if◌then◌else◌, has, length,
}
use simpool.Availability.{SlotDir}
use simpool.Group.{Slots, numbers, slot_at, put_slot, new_dir}

-- The numbers ascend strictly from `n`.
abbrev pub Ascends : ℕ → Slots → Type 0
Ascends n [] = Unit {0}
Ascends n ((m, d) ∷ rest) = (n ≤ m) × Ascends (suc m) rest

pub slot_at-put_slot :
    (n m : ℕ) (d : SlotDir) (s : Slots)
    → slot_at m (put_slot n d s) ≡ (if n == m then d else slot_at m s)
unfolding slot_at put_slot
slot_at-put_slot n m d [] = ground arith
slot_at-put_slot n m d ((k, e) ∷ rest) = ground (arith, slot_at-put_slot n m d rest)

pub slot_at-put_slot_self : (n : ℕ) (d : SlotDir) (s : Slots) → slot_at n (put_slot n d s) ≡ d
slot_at-put_slot_self n d s = ground (arith, slot_at-put_slot n n d s)

pub slot_at-put_slot_ne :
    (n m : ℕ) (d : SlotDir) (s : Slots) → m ≢ n → slot_at m (put_slot n d s) ≡ slot_at m s
slot_at-put_slot_ne n m d s h = ground (arith, slot_at-put_slot n m d s)

pub put_slot-Ascends :
    (b n : ℕ) (d : SlotDir) (s : Slots) → b ≤ n → Ascends b s → Ascends b (put_slot n d s)
unfolding put_slot
put_slot-Ascends b n d [] h a = (h, tt)
put_slot-Ascends b n d ((k, e) ∷ rest) h a = ground (arith, put_slot-Ascends (suc k) n d rest)

pub has-put_slot :
    (n m : ℕ) (d : SlotDir) (s : Slots)
    → has m (numbers (put_slot n d s)) ≡ (n == m || has m (numbers s))
unfolding put_slot has
has-put_slot n m d [] = ground arith
has-put_slot n m d ((k, e) ∷ rest) = ground (arith, has-put_slot n m d rest)

-- A number below all of a group's is not among them.
pub below-has : (b n : ℕ) (s : Slots) → Ascends b s → n < b → has n (numbers s) ≡ false
unfolding has
below-has b n [] a h = refl
below-has b n ((k, e) ∷ rest) a h = ground (arith, below-has (suc k) n rest a.1)

pub slot_at_below : (b n : ℕ) (s : Slots) → Ascends b s → n < b → slot_at n s ≡ new_dir
unfolding slot_at
slot_at_below b n [] a h = refl
slot_at_below b n ((k, e) ∷ rest) a h = ground (arith, slot_at_below (suc k) n rest a.1)

pub length-put_slot :
    (b n : ℕ) (d : SlotDir) (s : Slots)
    → Ascends b s
    → length (numbers (put_slot n d s))
      ≡ (if has n (numbers s) then length (numbers s) else suc (length (numbers s)))
unfolding put_slot has
length-put_slot b n d [] a = refl
length-put_slot b n d ((k, e) ∷ rest) a =
    ground (arith, length-put_slot (suc k) n d rest a.1, below-has (suc k) n rest a.1)
