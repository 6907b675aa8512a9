-- ===== src/Drivers.antt =====
-- internal/pool/leasedriver.go: which other process drives the lease of a slot. The driver is the
-- parent of the simpool process.
use simpool.Common.{
  ℕ, ◌≡◌, refl, sym, ◌≢◌, ◌↔◌, true, false, not, ◌||◌, [], Option, none, some, arith, ◌==◌,
  if◌then◌else◌,
}
use simpool.Text.{Text, text_eq, text_eq_iff, is_empty, is_empty→nil}
use simpool.Meta.{Meta}
use simpool.Procs.{Os, alive, process_start_time}

pub record LeaseDriver : Type 0 where
  pub pid : ℕ
  pub started_at : Text

abbrev driver_of : ℕ → Option Text → LeaseDriver
driver_of pid none = record { pid = pid; started_at = [] }
driver_of pid (some started) = record { pid = pid; started_at = started }

-- currentLeaseDriver in a process whose parent is `parent`
unfoldable pub current_lease_driver : Os → ℕ → LeaseDriver
current_lease_driver os parent = driver_of parent (process_start_time os parent)

abbrev same_start : LeaseDriver → Option Text → Option LeaseDriver
same_start d none = none
same_start d (some started) = if text_eq started d.started_at then some d else none

-- ConcurrentLeaseDriver in a process whose parent is `parent`
unfoldable pub concurrent_lease_driver : Os → ℕ → Meta → Option LeaseDriver
concurrent_lease_driver os parent m =
    if m.lease_driver_pid == 0 || is_empty m.lease_driver_started_at
    then none
    else if m.lease_driver_pid == parent
    then none
    else if not (alive os m.lease_driver_pid)
    then none
    else same_start (record { pid = m.lease_driver_pid; started_at = m.lease_driver_started_at })
        (process_start_time os m.lease_driver_pid)

-- meta.json with the driver that provisioning records.
abbrev pub driven_by : LeaseDriver → Meta → Meta
driven_by d m = record m { lease_driver_pid = d.pid; lease_driver_started_at = d.started_at }

same_start_reported :
    (d : LeaseDriver) (o : Option Text) → (same_start d o ≡ some d) ↔ (o ≡ some d.started_at)
same_start_reported d none = (λ h. cc, λ h. cc)
same_start_reported d (some s) = (
  λ h. ground (arith, text_eq_iff s d.started_at),
  λ h. ground (arith, text_eq_iff s d.started_at),
)

dead_zero : (os : Os) → alive os 0 ≡ false
unfolding alive
dead_zero os = refl

reported :
    (os : Os) (m : Meta) (d : LeaseDriver) (q : ℕ)
    → d.pid ≢ q
    → (concurrent_lease_driver os q (driven_by d m) ≡ some d) ↔ (
        (d.started_at ≢ [])
        × (alive os d.pid ≡ true)
        × (process_start_time os d.pid ≡ some d.started_at))
unfolding concurrent_lease_driver
reported os m d q ne =
    let same = same_start_reported d (process_start_time os d.pid) in
    (
      λ h. ground (arith, same, is_empty→nil d.started_at),
      λ h. ground (arith, same, is_empty→nil d.started_at, dead_zero os),
    )

own_not_reported :
    (os : Os) (m : Meta) (d : LeaseDriver) → concurrent_lease_driver os d.pid (driven_by d m) ≡ none
unfolding concurrent_lease_driver
own_not_reported os m d = ground arith

-- Of a driver whose number is `p`.
reported_of :
    (os : Os) (m : Meta) (d : LeaseDriver) (p q : ℕ)
    → d.pid ≡ p
    → (p ≢ q
        → (concurrent_lease_driver os q (driven_by d m) ≡ some d) ↔ (
            (d.started_at ≢ [])
            × (alive os p ≡ true)
            × (process_start_time os p ≡ some d.started_at)))
      × (concurrent_lease_driver os p (driven_by d m) ≡ none)
reported_of os m d p q e = rw (sym e) (reported os m d q, own_not_reported os m d)

driver_of-pid : (p : ℕ) (o : Option Text) → (driver_of p o).pid ≡ p
driver_of-pid p none = refl
driver_of-pid p (some s) = refl

-- What provisioning under driver `p` records is reported to a process of another driver exactly
-- while `p` lives and the process of that number is still the one that was recorded, with a start
-- time that could be read; and it is never reported to a process of the same driver.
recorded_driver :
    (before now : Os) (m : Meta) (p q : ℕ)
    → let d = current_lease_driver before p in
      (p ≢ q
        → (concurrent_lease_driver now q (driven_by d m) ≡ some d) ↔ (
            (d.started_at ≢ [])
            × (alive now p ≡ true)
            × (process_start_time now p ≡ some d.started_at)))
      × (concurrent_lease_driver now p (driven_by d m) ≡ none)
unfolding current_lease_driver
recorded_driver before now m p q =
    let started = process_start_time before p in
    reported_of now m (driver_of p started) p q (driver_of-pid p started)
