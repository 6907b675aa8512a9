-- ===== src/Examples/Slots.antt =====
-- The theorems on slots, leases and acquisition, applied to the group of Scene.
use simpool.Common.{
  ℕ, ◌+◌, ◌-◌, ◌≤◌, ◌<◌, ◌≡◌, refl, ◌≢◌, ◌↔◌, true, false, ◌&&◌, ltb, [], none, arith, length,
}
use simpool.Meta.{present}
use simpool.Availability.{slot_availability_locked, slot_free, locked, unlocked}
use simpool.Availability.Exemption.{Takeable, slot_availability_locked-free}
use simpool.Group.{
  numbers, World, slot_at, put_slot, census_in_use, claim_slot_lock_capped, os_of,
  shutdown_in_progress,
}
use simpool.Group.Slots.{Ascends}
use simpool.Group.Cap.{claim_within_cap, used}
use simpool.Claims.{claim_slot_for_lease}
use simpool.Claims.Safety.{Grantable, Granted, claim_slot_for_lease-Granted}
use simpool.Claims.Book.{BookStep, book, is_taken, claim_slot_for_lease-BookStep}
use simpool.Leases.{acquire_lease, is_own, release_lease, leased}
use simpool.Leases.Holding.{Held, acquire_lease-Held}
use simpool.Leases.Renewal.{acquire_lease_renews}
use simpool.Leases.Releasing.{Releases, release_lease-Releases}
use simpool.Claims.{Context}
use simpool.Leases.{wait_marker}
use simpool.Leases.Waiting.{wait_marker-settles}
use simpool.Acquire.{try_acquire_slots}
use simpool.Acquire.Residency.{try_acquire_slots_within_max}
use simpool.Acquire.Outcome.{AllOrNothing, try_acquire_slots-AllOrNothing}
use simpool.Examples.Runs.{run_claim, run_lease}
use simpool.Examples.Scene.{
  minute, haunted, quiet, slots, world, haunted_world, context, key_1, key_2, slot_0, noon,
}

world-Ascends : Ascends 0 slots
world-Ascends = (omega arith, (omega arith, (omega arith, (omega arith, tt))))

try_acquire_slots-AllOrNothing_example :
    let x = try_acquire_slots context none 35 2 4 world in AllOrNothing context 2 4 world x.0 x.1
try_acquire_slots-AllOrNothing_example =
    try_acquire_slots-AllOrNothing context 2 4 world none 35 world-Ascends

claim_slot_for_lease-Granted_example :
    ((slot_at 0 haunted_world.slots).lock ≡ unlocked)
    × (0 < 4 → length (census_in_use haunted [] 0 key_2 slots) + 1 ≤ 4)
    × Grantable context 0 key_2 haunted_world
    × Granted 0 key_2 minute haunted_world
        (claim_slot_for_lease context 0 key_2 minute 4 haunted_world).1
unfolding run_claim
claim_slot_for_lease-Granted_example =
    claim_slot_for_lease-Granted context 0 key_2 minute 4 haunted_world refl

claim_slot_for_lease-BookStep_example :
    let r = claim_slot_for_lease context 0 key_2 minute 4 haunted_world in
    BookStep 0 key_2 noon ((os_of r.1).now + minute) (book haunted_world) (book r.1) (is_taken r.0)
claim_slot_for_lease-BookStep_example =
    claim_slot_for_lease-BookStep context 0 key_2 minute 4 haunted_world

slot_availability_locked-free_example :
    ((slot_availability_locked haunted slot_0 key_1).state ≡ slot_free)
    ↔ Takeable haunted slot_0 key_1
slot_availability_locked-free_example = slot_availability_locked-free haunted slot_0 key_1

claim_within_cap_example :
    let w' = (claim_slot_lock_capped 0 3 [] [] world).1 in
    ((slot_at 0 world.slots).lock ≡ unlocked)
    × ((slot_at 0 w'.slots).lock ≡ locked)
    × ((m : ℕ) → m ≢ 0 → slot_at m w'.slots ≡ slot_at m world.slots)
    × (used (os_of world) w'.slots ≤ 3)
unfolding run_claim
claim_within_cap_example = claim_within_cap 0 3 [] world (omega arith) world-Ascends refl

acquire_lease-Held_example :
    let (r, w') = acquire_lease context key_2 minute 4 haunted_world in
    Held context key_2 minute 4 r w'
acquire_lease-Held_example = acquire_lease-Held context key_2 minute 4 haunted_world

job_1-holds_3 : is_own quiet key_1 (slot_at 3 slots).lease_file ≡ true
unfolding run_lease
job_1-holds_3 = refl

acquire_lease_renews_example :
    (m : ℕ) × (is_own quiet key_1 (slot_at m slots).lease_file ≡ true)
    × (acquire_lease context key_1 minute 4 world ≡ (
      leased m true,
      record world {
        slots =
            put_slot m
              (record (slot_at m slots) {
                lease_file = present (record { key = key_1; expires_at = noon + minute });
              })
              slots;
      },
    ))
unfolding run_lease
acquire_lease_renews_example =
    acquire_lease_renews context key_1 minute 4 3 world world-Ascends (λ e. cc)
      (λ e. absurd (omega arith)) (λ e. absurd (omega arith)) refl refl

release_lease-Releases_example : Releases key_1 3 slots (release_lease key_1 slots)
release_lease-Releases_example = release_lease-Releases key_1 3 slots (λ e. cc) world-Ascends

-- Each sleep takes a second, and nothing else happens.
abbrev tick : World → World
tick w = record w {
  machine = record w.machine {
    os = record w.machine.os { now = w.machine.os.now + 1_000_000_000 };
  };
}

wait_marker-settles_example :
    let c : Context = record context { sleep = tick } in
    let w' = wait_marker c key_1 minute 4 241 (noon + minute) 1 world in
    ((shutdown_in_progress (os_of w') (slot_at 1 w'.slots) && ltb (os_of w').now (noon + minute))
      ≡ false)
    × (wait_marker c key_1 minute 4 300 (noon + minute) 1 world ≡ w')
wait_marker-settles_example =
    wait_marker-settles (record context { sleep = tick }) key_1 minute 4 300 1 world
      (λ w. omega arith) (omega arith)

try_acquire_slots_within_max_example :
    length (numbers (try_acquire_slots context none 35 3 5 world).1.slots) ≤ 4 + (5 - 4)
try_acquire_slots_within_max_example =
    try_acquire_slots_within_max context none 35 3 5 world world-Ascends
