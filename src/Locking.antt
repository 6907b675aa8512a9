-- ===== src/Locking.antt =====
-- internal/pool/lock.go and slot.go: the lock protocol of one slot number, step by step. The slot's
-- directory comes and goes, and its lock file with it: a process that has opened a lock file keeps
-- its inode, also when the file has been unlinked. Steps of different processes interleave freely.
pub mod Exclusion
use simpool.Common.{
  ℕ, zero, suc, ◌+◌, ◌≡◌, ◌≢◌, Bool, true, false, Option, none, some, ◌==◌, if◌then◌else◌,
}

-- Where a process is in the protocol; the numbers are inodes of lock files.
pub data Phase : Type 0 where
  idle : Phase
  entered : Phase  -- in the allocation lock, nothing opened
  opened : ℕ → Phase  -- in the allocation lock, the lock file open
  holding : ℕ → Phase  -- has the flock, out of the allocation lock
  deleting : ℕ → Phase  -- has the flock, in the allocation lock again
  removed : ℕ → Phase  -- has removed the directory, still has the flock of its file
  probing : ℕ → Phase  -- outside the allocation lock, the lock file open
  probed : ℕ → Phase  -- has a flock taken outside the allocation lock

-- `path` is the inode of the lock file, if the directory is there; `alloc` is the process that has
-- the group's allocation lock.
pub record State : Type 0 where
  pub path : Option ℕ
  pub next : ℕ
  pub alloc : Option ℕ
  pub phase : ℕ → Phase

-- The inode whose flock a process has.
abbrev pub flocked : Phase → Option ℕ
flocked (holding i) = some i
flocked (deleting i) = some i
flocked (removed i) = some i
flocked (probed i) = some i
flocked _ = none

abbrev pub at : (ℕ → Phase) → ℕ → Phase → ℕ → Phase
at phase p new q = if q == p then new else phase q

-- Process `p` goes on to the phase `new`, and the allocation lock to `a`.
abbrev pub goes : State → ℕ → Phase → Option ℕ → State
goes s p new a = record s { phase = at s.phase p new; alloc = a }

-- Nobody has the flock of inode `i`.
abbrev pub Unflocked : State → ℕ → Type 0
Unflocked s i = (q : ℕ) → flocked (s.phase q) ≢ some i

-- The steps of claimSlotLockCapped, LockExistingSlot, RemoveSlotDir and RemoveSlotDirAbove, and of
-- the holders of a flock that was taken by a TryLock outside the allocation lock: a probe of the
-- slot, work on its simulator, and reapSlot, which may remove the directory.
pub data Step : State → State → Type 0 where
  -- withGroupAllocLock, before a claim
  enter :
      {s : State} (p : ℕ) → s.phase p ≡ idle → s.alloc ≡ none → Step s (goes s p entered (some p))
  -- MkdirAll and OpenFile where the directory is there
  open_existing :
      {s : State} (p i : ℕ)
      → s.phase p ≡ entered
      → s.path ≡ some i
      → Step s (goes s p (opened i) s.alloc)
  -- MkdirAll and OpenFile with O_CREATE where it is not
  open_new :
      {s : State} (p : ℕ)
      → s.phase p ≡ entered
      → s.path ≡ none
      → Step s (record (goes s p (opened s.next) s.alloc) { path = some s.next; next = s.next + 1 })
  -- LockExistingSlot on a directory that is gone, or a census at the cap
  leave : {s : State} (p : ℕ) → s.phase p ≡ entered → Step s (goes s p idle none)
  -- Flock succeeds
  lock :
      {s : State} (p i : ℕ)
      → s.phase p ≡ opened i
      → Unflocked s i
      → Step s (goes s p (holding i) none)
  -- ErrBusy
  busy : {s : State} (p i : ℕ) → s.phase p ≡ opened i → Step s (goes s p idle none)
  release : {s : State} (p i : ℕ) → s.phase p ≡ holding i → Step s (goes s p idle s.alloc)
  -- withGroupAllocLock, before a removal
  begin_removal :
      {s : State} (p i : ℕ)
      → s.phase p ≡ holding i
      → s.alloc ≡ none
      → Step s (goes s p (deleting i) (some p))
  -- RemoveAll
  remove :
      {s : State} (p i : ℕ)
      → s.phase p ≡ deleting i
      → Step s (record (goes s p (removed i) none) { path = none })
  -- RemoveSlotDirAbove in a group that is within its cap
  keep_dir : {s : State} (p i : ℕ) → s.phase p ≡ deleting i → Step s (goes s p (holding i) none)
  release_removed : {s : State} (p i : ℕ) → s.phase p ≡ removed i → Step s (goes s p idle s.alloc)
  -- TryLock outside the allocation lock
  probe_open :
      {s : State} (p i : ℕ)
      → s.phase p ≡ idle
      → s.path ≡ some i
      → Step s (goes s p (probing i) s.alloc)
  probe_lock :
      {s : State} (p i : ℕ)
      → s.phase p ≡ probing i
      → Unflocked s i
      → Step s (goes s p (probed i) s.alloc)
  probe_busy : {s : State} (p i : ℕ) → s.phase p ≡ probing i → Step s (goes s p idle s.alloc)
  probe_release : {s : State} (p i : ℕ) → s.phase p ≡ probed i → Step s (goes s p idle s.alloc)
  -- RemoveSlotDir in reapSlot, whose flock is that of such a TryLock
  begin_reap :
      {s : State} (p i : ℕ)
      → s.phase p ≡ probed i
      → s.alloc ≡ none
      → Step s (goes s p (deleting i) (some p))

-- A TryLock outside the allocation lock flocks the lock file that stands at the slot's path, and not
-- one that has been unlinked since it was opened. The code does not check this.
abbrev pub Fresh : (s t : State) → Step s t → Type 0
Fresh s t (probe_lock p i opened_at free) = s.path ≡ some i
Fresh s t _ = Unit {0}

abbrev pub FreshStep : State → State → Type 0
FreshStep s t = (x : Step s t) × Fresh s t x

-- Any number of steps from a state.
pub data Reaches (R : State → State → Type 0) : State → State → Type 0 where
  here : {s : State} → Reaches R s s
  then_step : {s t u : State} → Reaches R s t → R t u → Reaches R s u

-- No slot directory, and no process at work on it.
abbrev pub start : State
start = record { path = none; next = 0; alloc = none; phase = λ p. idle }
