-- ===== src/Examples/Protocol.antt =====
-- Runs of the lock protocol: one claim, and two `reapSlot` that remove a slot's directory around
-- another process's claim.
use simpool.Common.{ℕ, ◌≡◌, refl, none, some, arith}
use simpool.Locking.{
  idle, entered, opened, holding, deleting, removed, probing, probed, State, goes, Step, enter,
  open_new, lock, release, remove, release_removed, probe_open, probe_lock, begin_reap, Reaches,
  here, then_step, start,
}
use simpool.Locking.Exclusion.{held}

abbrev state_1 : State
state_1 = goes start 3 entered (some 3)

abbrev state_2 : State
state_2 = record (goes state_1 3 (opened 0) (some 3)) { path = some 0; next = 1 }

abbrev state_3 : State
state_3 = goes state_2 3 (holding 0) none

abbrev state_4 : State
state_4 = goes state_3 3 idle none

abbrev state_5 : State
state_5 = goes state_4 1 (probing 0) none

abbrev state_6 : State
state_6 = goes state_5 1 (probed 0) none

abbrev state_7 : State
state_7 = goes state_6 2 (probing 0) none

abbrev state_8 : State
state_8 = goes state_7 1 (deleting 0) (some 1)

abbrev state_9 : State
state_9 = record (goes state_8 1 (removed 0) none) { path = none }

abbrev state_10 : State
state_10 = goes state_9 1 idle none

abbrev state_11 : State
state_11 = goes state_10 2 (probed 0) none

abbrev state_12 : State
state_12 = goes state_11 3 entered (some 3)

abbrev state_13 : State
state_13 = record (goes state_12 3 (opened 1) (some 3)) { path = some 1; next = 2 }

abbrev state_14 : State
state_14 = goes state_13 3 (holding 1) none

abbrev state_15 : State
state_15 = goes state_14 2 (deleting 0) (some 2)

abbrev state_16 : State
state_16 = record (goes state_15 2 (removed 0) none) { path = none }

abbrev claimant : ℕ
claimant = 3

reap_1 : Reaches Step start state_1
reap_1 = then_step here (enter 3 refl refl)

reap_2 : Reaches Step start state_2
reap_2 = then_step reap_1 (open_new 3 refl refl)

reap_3 : Reaches Step start state_3
reap_3 = then_step reap_2 (lock 3 0 refl (λ q h. ground arith))

reap_4 : Reaches Step start state_4
reap_4 = then_step reap_3 (release 3 0 refl)

reap_5 : Reaches Step start state_5
reap_5 = then_step reap_4 (probe_open 1 0 refl refl)

reap_6 : Reaches Step start state_6
reap_6 = then_step reap_5 (probe_lock 1 0 refl (λ q h. ground arith))

reap_7 : Reaches Step start state_7
reap_7 = then_step reap_6 (probe_open 2 0 refl refl)

reap_8 : Reaches Step start state_8
reap_8 = then_step reap_7 (begin_reap 1 0 refl refl)

reap_9 : Reaches Step start state_9
reap_9 = then_step reap_8 (remove 1 0 refl)

reap_10 : Reaches Step start state_10
reap_10 = then_step reap_9 (release_removed 1 0 refl)

reap_11 : Reaches Step start state_11
reap_11 = then_step reap_10 (probe_lock 2 0 refl (λ q h. ground arith))

reap_12 : Reaches Step start state_12
reap_12 = then_step reap_11 (enter 3 refl refl)

reap_13 : Reaches Step start state_13
reap_13 = then_step reap_12 (open_new 3 refl refl)

reap_14 : Reaches Step start state_14
reap_14 = then_step reap_13 (lock 3 1 refl (λ q h. ground arith))

reap_15 : Reaches Step start state_15
reap_15 = then_step reap_14 (begin_reap 2 0 refl refl)

reap_16 : Reaches Step start state_16
reap_16 = then_step reap_15 (remove 2 0 refl)

-- With a removal under a flock that was taken outside the allocation lock, two processes hold the
-- slot at once, and a step later its directory is gone from under the one that claimed it.
two_holders :
    Reaches Step start state_15
    × (held (state_15.phase 3) ≡ some 1)
    × (held (state_15.phase 2) ≡ some 0)
two_holders = (reap_15, refl, refl)

holder_without_directory :
    Reaches Step start state_16 × (held (state_16.phase 3) ≡ some 1) × (state_16.path ≡ none)
holder_without_directory = (reap_16, refl, refl)
