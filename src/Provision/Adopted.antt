-- ===== src/Provision/Adopted.antt =====
-- internal/pool/provision.go: the simulator that ensureProvisioned adopts bears the slot's own name.
use simpool.Common.{◌≡◌, refl, inl, inr, List, [], ◌∷◌, Option, none, some, Bool-cases, keep, sym}
use simpool.Text.{Text, text_eq, text_eq_iff, is_empty}
use simpool.Procs.{Os, Device}
use simpool.SlotCap.Evictable.{keep_head-name}
use simpool.Reap.{listed_device}
use simpool.Provision.{adopts, by_matching, adopt_by_name, adopt_found, adopt}

by_matching-name :
    (want : Text) (ms : List Device)
    → ((d : Device) (rest : List Device) → ms ≡ d ∷ rest → d.name ≡ want)
    → (d : Device) → by_matching ms ≡ adopts d
    → d.name ≡ want
by_matching-name want [] f d h = cc
by_matching-name want (e ∷ []) f d h = let same : e ≡ d = cc in rw (sym same) (f e [] refl)
by_matching-name want (e ∷ e' ∷ es) f d h = cc

by_name-name :
    (want : Text) (ds : Option (List Device)) (d : Device)
    → adopt_by_name want ds ≡ adopts d
    → d.name ≡ want
by_name-name want none d h = cc
by_name-name want (some ds) d h =
    by_matching-name want (keep (λ e. text_eq e.name want) ds) (keep_head-name want ds) d h

found-name :
    (want : Text) (ds : Option (List Device)) (found : Option (Option Device)) (d : Device)
    → adopt_found want ds found ≡ adopts d
    → d.name ≡ want
found-name want ds none d h = cc
found-name want ds (some none) d h = by_name-name want ds d h
found-name want ds (some (some e)) d h = elim (Bool-cases (text_eq e.name want)) [
  | inl t ↦ let same : e ≡ d = cc (rw t at h) in rw (sym same) ((text_eq_iff e.name want).0 t)
  | inr t ↦ by_name-name want ds d (rw t at h)
]

-- A simulator is adopted only under the slot's own name.
pub adopt-name :
    (os : Os) (udid want : Text) (d : Device) → adopt os udid want ≡ adopts d → d.name ≡ want
unfolding adopt
adopt-name os udid want d h = elim (Bool-cases (is_empty udid)) [
  | inl e ↦ by_name-name want os.devices d (rw (e, adopt) at h)
  | inr e ↦ found-name want os.devices (listed_device udid os.devices) d (rw (e, adopt) at h)
]
