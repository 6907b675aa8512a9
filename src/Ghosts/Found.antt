-- ===== src/Ghosts/Found.antt =====
-- internal/cli/runtimeimages.go: the simulators of the slots that findGhostSlots finds.
use simpool.Common.{
  ℕ, ◌≡◌, refl, inl, inr, Bool, true, false, not, ◌||◌, List, [], ◌∷◌, ◌++◌, Option, none, some,
  All, Bool-cases, Option-cases, ◌∙◌, if◌then◌else◌,
}
use simpool.Text.{Text, text_eq, is_empty}
use simpool.Procs.{Device}
use simpool.Group.{World, os_of, numbers, slot_at}
use simpool.Claims.{Context}
use simpool.Reap.{last_udid, own_name}
use simpool.Orphans.Spared.{In}
use simpool.Simctl.{Runtime}
use simpool.Ghosts.{
  GhostSlot, last_named, or_named, device_of, ghost_of, ghosts_among, ghosts_listed,
  available_versions, find_ghosts,
}

-- A ghost's simulator, where it has one, is listed and unavailable.
abbrev pub Unavailable : List Device → Option Device → Type 0
Unavailable ds none = Unit {0}
Unavailable ds (some d) = In d ds × (d.is_available ≡ false)

selected :
    (e : Device) (ds : List Device) (d : Device) (b : Bool)
    → (if b then some e else none) ≡ some d
    → In d (e ∷ ds)
selected e ds d true h = inl cc
selected e ds d false h = cc

last_udid-In : (udid : Text) (ds : List Device) (d : Device) → last_udid udid ds ≡ some d → In d ds
unfolding last_udid
last_udid-In udid [] d h = cc
last_udid-In udid (e ∷ ds) d h = elim (Option-cases (last_udid udid ds)) [
  | inl n ↦ selected e ds d (text_eq e.udid udid) (rw (n, last_udid) at h)
  | inr (f, n) ↦ inr (last_udid-In udid ds d (n ∙ (rw (n, last_udid) at h)))
]

last_named-In :
    (named : Text) (ds : List Device) (d : Device) → last_named named ds ≡ some d → In d ds
unfolding last_named
last_named-In named [] d h = cc
last_named-In named (e ∷ ds) d h = elim (Option-cases (last_named named ds)) [
  | inl n ↦ selected e ds d (text_eq e.name named) (rw (n, last_named) at h)
  | inr (f, n) ↦ inr (last_named-In named ds d (n ∙ (rw (n, last_named) at h)))
]

chosen-In :
    (b : Bool) (udid : Text) (ds : List Device) (d : Device)
    → (if b then none else last_udid udid ds) ≡ some d
    → In d ds
chosen-In true udid ds d h = cc
chosen-In false udid ds d h = last_udid-In udid ds d h

or_named-In :
    (want : Text) (ds : List Device) (o : Option Device)
    → ((e : Device) → o ≡ some e → In e ds)
    → (d : Device) → or_named want ds o ≡ some d
    → In d ds
or_named-In want ds none f d h = last_named-In want ds d h
or_named-In want ds (some e) f d h = f d h

device_of-In :
    (udid want : Text) (ds : List Device) (d : Device) → device_of udid want ds ≡ some d → In d ds
unfolding device_of
device_of-In udid want ds d h = or_named-In want ds _ (chosen-In (is_empty udid) udid ds) d h

-- Every ghost that is found has no simulator, or one that is listed and unavailable.
abbrev pub Found : List Device → List GhostSlot → Type 0
Found ds gs = All (λ g. Unavailable ds g.device) gs

ghost_of-Found :
    (n : ℕ) (provided : Bool) (udid : Text) (ds : List Device) (o : Option Device)
    → ((d : Device) → o ≡ some d → In d ds)
    → Found ds (ghost_of n provided udid o)
ghost_of-Found n provided udid ds none f = elim (Bool-cases (not provided || not (is_empty udid))) [
  | inl e ↦ rw e (tt, tt)
  | inr e ↦ rw e tt
]
ghost_of-Found n provided udid ds (some d) f = by d.is_available refl
  where
    by :
        (b : Bool)
        → d.is_available ≡ b
        → Found ds (if b then [] else record { number = n; device = some d } ∷ [])
    by true e = tt
    by false e = ((f d refl, e), tt)

append_Found :
    (ds : List Device) (xs ys : List GhostSlot) → Found ds xs → Found ds ys → Found ds (xs ++ ys)
append_Found ds [] ys h k = k
append_Found ds (x ∷ xs) ys h k = (h.0, append_Found ds xs ys h.1 k)

module _ (c : Context) where
  ghosts_among-Found :
      (provided : Bool) (ds : List Device) (ns : List ℕ) (w : World)
      → Found ds (ghosts_among c provided ds ns w)
  unfolding ghosts_among
  ghosts_among-Found provided ds [] w = tt
  ghosts_among-Found provided ds (n ∷ ns) w =
      let udid = (slot_at n w.slots).meta.udid in
      append_Found ds (ghost_of n provided udid (device_of udid (own_name c n) ds)) _
        (ghost_of-Found n provided udid ds (device_of udid (own_name c n) ds)
          (device_of-In udid (own_name c n) ds))
        (ghosts_among-Found provided ds ns w)

  -- The ghosts come of a listing of devices that succeeded.
  abbrev pub Listed : World → Option (List GhostSlot) → Type 0
  Listed w none = Unit {0}
  Listed w (some gs) = (ds : List Device) × ((os_of w).devices ≡ some ds) × Found ds gs

  ghosts_listed-Listed :
      (versions : List Text) (devices : Option (List Device)) (w : World)
      → (os_of w).devices ≡ devices
      → Listed w (ghosts_listed c versions devices w)
  ghosts_listed-Listed [] devices w e = tt
  ghosts_listed-Listed (v ∷ vs) none w e = tt
  ghosts_listed-Listed (v ∷ vs) (some []) w e = tt
  ghosts_listed-Listed (v ∷ vs) (some (d ∷ ds)) w e =
      (d ∷ ds, e, ghosts_among-Found _ (d ∷ ds) (numbers w.slots) w)

  pub find_ghosts-Listed :
      (runtimes : Option (List Runtime)) (unlisted : Bool) (w : World)
      → Listed w (find_ghosts c runtimes unlisted w)
  unfolding find_ghosts
  find_ghosts-Listed none unlisted w = tt
  find_ghosts-Listed (some runtimes) true w = tt
  find_ghosts-Listed (some runtimes) false w =
      ghosts_listed-Listed (available_versions runtimes) (os_of w).devices w refl
