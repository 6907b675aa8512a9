-- ===== src/Lib.antt =====
-- simpool: a pool of iOS simulators shared by concurrent jobs of one machine. A group, one device
-- and OS version, is a directory of slot directories; a slot is held by an flock or by a lease in
-- its lease.json. This library models the decisions of internal/pool, those of
-- `simpool reap` in internal/cli, and the parts of internal/procs and internal/simctl that they rest
-- on, over a group as a value and a machine as a value.
--
-- Parts and files:
--   Common, Text: shared lists, tests and texts (a text is a list of code points).
--   Meta: Meta and Lease (internal/pool/meta.go, lease.go). Times are nanoseconds, with 0 for Go's
--     zero time.
--   Procs: LiveConsumers, Alive, PGIDAlive, IsIdbCompanionFor and IsOrphanedSimctlLogStreamFor
--     (internal/procs/procs.go) over `Os`, one observation of the machine.
--   Poison: CheckPoison (internal/pool/poison.go); Poison/Recovery: AttemptRecovery and
--     DisownPoisonedSlot, which record what they do to processes and devices; Verdict, PidSets,
--     Kills and Disowning: their proofs.
--   Availability: SlotAvailability and slotAvailabilityLocked (internal/pool/availability.go);
--     Exemption and Views: their proofs.
--   Names: slot and device names (internal/pool/paths.go). Slim: capabilities
--     (internal/pool/slim.go).
--   Group: the slots of a group, the census of slots in use and the claim of a flock
--     (internal/pool/usecap.go, lock.go, idleshutdown.go). Dispatch: dispatchOrder
--     (internal/pool/slot.go).
--   Claims: claimSlotForLease; Claims/Book: its specification, steps on a book of leases. Leases:
--     AcquireLease, ReleaseLease and CleanupExpiredLease (internal/pool/lease.go), with the wait for
--     an idle shutdown (idleshutdown.go).
--   Reclaims: ReclaimReleasedResidue and ReclaimOwnResidue (internal/pool/lease.go).
--   Acquire: tryAcquireSlots (internal/pool/slot.go) and coldBootFloor (coldfloor.go).
--   Queueing: AcquireSlots, the loop of attempts (internal/pool/slot.go).
--   Drivers: ConcurrentLeaseDriver (internal/pool/leasedriver.go).
--   SlotCap: enforceSlotCap and classifyCapSlot (internal/cli/slotcap.go), RemoveSlotDirAbove
--     (internal/pool/slot.go).
--   Reap: reapSlot, idleShutdown and shutdownQuarantined (internal/cli/reap.go); Reap/Held:
--     reapHeldSlot; Reap/Slot: the order of the checks, and shutdownReleasedQuarantine; Idle,
--     Quarantined, Leased and Stuck: their proofs.
--   Warm: enforceWarmCap, enforceWarmFloor and warmKept (internal/cli/reap.go, warmfloor.go,
--     idle.go); Bounded, Recent and Floor: their proofs.
--   Orphans: reapOrphans (internal/cli/reap.go); Orphans/Spared: its proof.
--   Passes: RunReap over a root with one group (internal/cli/reap.go); Passes/Fast: its proof.
--   Ghosts: findGhostSlots and pruneGhostSlots (internal/cli/runtimeimages.go); Found and Pruned:
--     their proofs.
--   Images: decideRuntimes and collectGroupUsage (internal/cli/runtimeimages.go); Images/Unused: its
--     proof.
--   SimRuntime: SimRuntimeProcesses (internal/procs/simruntime.go); SimRuntime/Tagged: what stands
--     behind its results. Runtimes: reapOrphanRuntimes (internal/cli/runtimes.go); Deleted and
--     Swept: its proofs.
--   Provision: EnsureProvisioned (internal/pool/provision.go); Adopted, Recorded
--     and Replaced: its proofs.
--   BootGate: AcquireBootGate (internal/pool/bootgate.go); BootGate/Opening: its proof.
--   BootWait: BootAndWaitWithDeps (internal/simctl/simctl.go); Ending and Verdict:
--     its proofs.
--   Simctl: ResolveRuntime, ResolveRuntimeVersion and parseSpringBoardReady
--     (internal/simctl/simctl.go); Simctl/Resolved: their proof.
--   Locking: the lock protocol of one slot number (internal/pool/lock.go, slot.go), as steps of any
--     number of processes, with the probes and the removals of reapSlot (internal/cli/reap.go) by a
--     TryLock outside the allocation lock; Locking/Exclusion: its invariant, for runs in which such
--     a TryLock flocks the lock file that stands at the path.
--   Examples: a concrete group and machines, runs and applications of the theorems.
--
-- How they interact: Acquire and Leases walk the slots in the order of Dispatch; for each they
-- claim the flock (Group), ask Availability, which asks Poison, which asks Procs; a quarantined
-- slot goes through Poison.Recovery. `reap` (Passes) runs Reap on each slot and then SlotCap and Warm
-- on the group. Group.World is the state that all of them pass on.
--
-- Reading the model: `World` holds the slot directories, in ascending order of their numbers, and
-- the machine. A slot's flock is a state of its directory. What kill(2), simctl and the waits do to
-- the machine is a parameter (`Kernel`), and what other processes and the clock do while a call
-- sleeps is another (`Context.sleep`); between sleeps, kills and shutdowns a call runs alone. An
-- error of the file system is a value where the code's decisions depend on it: a lease.json that cannot be
-- read, a lock that cannot be opened, a listing that fails.
--
-- Fuel: Descendants has one unit for each process of the snapshot; the search of a slot number has
-- one more than there are slots, which always suffices; the wait for an idle shutdown has 241 polls
-- of 250 milliseconds for its 60 seconds, which suffice while a sleep takes as long as it says. The
-- retries after it are eight in the code too. The loop of AcquireSlots has a poll for each two
-- seconds of its wait and two more, which suffice likewise; that of AcquireBootGate has a scan for
-- each 200 milliseconds of its timeout and two more, and that of waitForReadyOnce a probe for each
-- 500 milliseconds and two more.
--
-- Not modelled: JSON files and their atomic replacement, environment variables, the text of
-- messages, the calls of xcrun and simslim, RootTag's SHA-256 (a parameter), a write of meta.json
-- or lease.json that fails; outside Locking, interleavings of two calls other than during a sleep;
-- the other commands of internal/cli, the pass of `reap` over run directories, and
-- presentation.
pub mod Common
pub mod Text
pub mod Meta
pub mod Procs
pub mod Poison
pub mod Availability
pub mod Names
pub mod Slim
pub mod Group
pub mod Dispatch
pub mod Claims
pub mod Leases
pub mod Acquire
pub mod Locking
pub mod Reap
pub mod Warm
pub mod Orphans
pub mod Passes
pub mod Ghosts
pub mod Images
pub mod SimRuntime
pub mod Runtimes
pub mod BootGate
pub mod BootWait
pub mod Simctl
pub mod Provision
pub mod Reclaims
pub mod SlotCap
pub mod Queueing
pub mod Drivers
pub mod Examples
