-- ===== src/Images/Unused.antt =====
-- What an image must be spared of to count as unused.
use simpool.Common.{
  ℕ, ◌+◌, ◌≤◌, ◌≡◌, ◌≢◌, Bool, true, false, ◌&&◌, List, [], ◌∷◌, map, arith, All, ltb,
  if◌then◌else◌, any,
}
use simpool.Text.{Text, text_eq, text_eq_iff}
use simpool.Procs.{Device}
use simpool.Availability.{SlotDir}
use simpool.Group.{Slots}
use simpool.Images.{
  RuntimeImage, SimulatorSdk, GroupUsage, RuntimeFacts, group_wants, is_sdk_of, used_within,
  decide_runtime, busy_slot, add_slot, add_slots, no_usage, group_usage, facts_of, running_ids,
}

-- A slot that nobody holds or leases, and that was not used within the window.
abbrev pub Idle : ℕ → ℕ → ℕ × SlotDir → Type 0
Idle now window (n, d) =
    (busy_slot now d.lock d.lease_file ≡ false)
    × (d.meta.last_used ≢ 0 → d.meta.last_used + window ≤ now)

spread : (a b l : ℕ) → (if ltb a b then b else a) ≤ l → (b ≤ l) × (a ≤ l)
spread a b l h = (ground (arith, h), ground (arith, h))

-- Where the collected usage is neither busy nor recent, neither is any slot.
add_slots-Idle :
    (now window : ℕ) (s : Slots) (g : GroupUsage)
    → (add_slots now s g).busy ≡ false
    → ((add_slots now s g).last_used ≢ 0 → (add_slots now s g).last_used + window ≤ now)
    → All (Idle now window) s × (g.busy ≡ false) × (g.last_used ≤ (add_slots now s g).last_used)
unfolding add_slots
add_slots-Idle now window [] g b u = (tt, b, ground arith)
add_slots-Idle now window ((n, d) ∷ s) g b u =
    let ih = add_slots-Idle now window s (add_slot now d g) b u in
    let busy = ih.1 in
    let later = ih.2 in
    let last : (d.meta.last_used ≤ (add_slots now s (add_slot now d g)).last_used)
        × (g.last_used ≤ (add_slots now s (add_slot now d g)).last_used) =
      spread g.last_used d.meta.last_used _ later in
    (
      (
        (ground (arith, busy), λ ne. omega (arith, u (λ z. ne (omega (arith, z, last.0))), last.0)),
        ih.0,
      ),
      ground (arith, busy),
      last.1,
    )

none_passes {ℓ} :
    {A : Type ℓ} (p : A → Bool) (xs : List A) → any p xs ≡ false → All (λ x. p x ≡ false) xs
unfolding any
none_passes p [] h = tt
none_passes p (x ∷ xs) h = (ground arith, none_passes p xs ground arith)

-- Nothing needs the image: no device runs on it and no Xcode ships its SDK, and each group that asks
-- for it has idle slots only.
abbrev pub Unneeded :
    ℕ → ℕ → RuntimeImage → List Text → List SimulatorSdk → List (Text × Slots) → Type 0
Unneeded now window img running sdks groups =
    All (λ id. id ≢ img.runtime_identifier) running
    × All (λ sdk. is_sdk_of img sdk ≡ false) sdks
    × All (λ g. group_wants (group_usage now g) img ≡ true → All (Idle now window) g.1) groups

running-ne :
    (img : RuntimeImage) (ids : List Text)
    → All (λ id. text_eq id img.runtime_identifier ≡ false) ids
    → All (λ id. id ≢ img.runtime_identifier) ids
running-ne img [] h = tt
running-ne img (id ∷ ids) h =
    (λ e. ground (arith, h.0, text_eq_iff id img.runtime_identifier), running-ne img ids h.1)

module _ (f : RuntimeFacts) (img : RuntimeImage) where
  groups-Idle :
      (gs : List (Text × Slots))
      → any (λ g. g.busy && group_wants g img) (map (group_usage f.now) gs) ≡ false
      → any (used_within f img) (map (group_usage f.now) gs) ≡ false
      → All (λ g. group_wants (group_usage f.now g) img ≡ true → All (Idle f.now f.window) g.1) gs
  unfolding any
  groups-Idle [] b u = tt
  groups-Idle ((name, s) ∷ gs) b u = (
    λ wants.
        let g = group_usage f.now (name, s) in
        (add_slots-Idle f.now f.window s (no_usage name) (ground (arith, b, wants))
          (λ ne. ground (arith, u, wants, ne))).0,
    groups-Idle gs ground (arith, b) ground (arith, u),
  )

-- An image that counts as unused has no device running on it and no installed SDK of its own, and in
-- every group that asks for it each slot could be read, is neither held nor leased, and was not
-- used within the window.
pub decide_runtime-Unneeded :
    (now window : ℕ) (img : RuntimeImage) (images : List RuntimeImage) (sdks : List SimulatorSdk)
    (devices : List Device) (groups : List (Text × Slots))
    → decide_runtime (facts_of now window images sdks devices groups) img ≡ false
    → Unneeded now window img (running_ids devices) sdks groups
unfolding decide_runtime
decide_runtime-Unneeded now window img images sdks devices groups h =
    let f = facts_of now window images sdks devices groups in
    (
      running-ne img (running_ids devices) (none_passes _ (running_ids devices) ground (arith, h)),
      none_passes (is_sdk_of img) sdks ground (arith, h),
      groups-Idle f img groups ground (arith, h) ground (arith, h),
    )
