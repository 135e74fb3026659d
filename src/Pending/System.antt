-- ===== src/Pending/System.antt =====
-- The pending queue in use: any sequence of calls of its methods, each run to its end or cut off by
-- a crash after any of its file-system calls.
pub mod Exclusion
use data_olympus.Base.{ℕ, String, Bool, true, Option, none, some, List, [], ◌∷◌, ◌++◌, lookup, ◌≡◌}
use data_olympus.Pending.Records.{Proposal, Entry, LockInfo, held}
use data_olympus.Pending.Disk.{Disk, Effect, run}
use data_olympus.Pending.Lock.{
  path_lock_filename, acquire_lock, release_lock, is_auto_commit_lock, is_some_time,
}
use data_olympus.Pending.Queue.{WriteFault, enqueue}
use data_olympus.Pending.Claim.{
  approve, reject, claim_for_resolve, record_write_context, record_outcome, finalize_resolve,
  restore_resolve,
}
use data_olympus.Pending.Sweep.{gc_orphan_locks, reclaim_stale_auto_commit_locks}
use data_olympus.Pending.Reconcile.{Search, reconcile_claims}
use data_olympus.Pending.Held.Completion.{Vacant}
use data_olympus.Pending.Held.Apart.{Apart}

-- A method with its arguments, the clock's time and the fresh ids among them.
-- `auto_acquire` and `auto_release` are the two ends of `path_lock`.
pub data Call : Type 0 where
  enqueues : WriteFault → String → ℕ → Proposal → Call
  approves : String → Option String → String → ℕ → Call
  rejects : String → String → ℕ → Call
  claims : String → Option String → String → ℕ → Call
  records_context : String → Option String → String → String → Call
  records_outcome : String → Option String → Option String → Option String → Option String → Call
  finalizes : String → String → Option String → Call
  restores : String → Option String → Call
  collects : Call
  reclaims : ℕ → ℕ → Call
  reconciles : (Entry → Search) → ℕ → ℕ → Call
  auto_acquires : String → String → ℕ → Call
  auto_releases : String → ℕ → Call

module _ (cap : ℕ) (sha256 : String → String) where
  unfoldable pub effects : Call → Disk → List Effect
  effects (enqueues fault p now q) d = (enqueue cap sha256 fault p now q d).1
  effects (approves p text token now) d = (approve sha256 p text token now d).1
  effects (rejects p token now) d = (reject sha256 p token now d).1
  effects (claims p text token now) d = (claim_for_resolve sha256 p text token now d).1
  effects (records_context p token ref pre) d = (record_write_context p token ref pre d).1
  effects (records_outcome p token sha failure unclear) d =
      (record_outcome p token sha failure unclear d).1
  effects (finalizes p path token) d = (finalize_resolve sha256 p path token d).1
  effects (restores p token) d = (restore_resolve p token d).1
  effects collects d = (gc_orphan_locks d).1
  effects (reclaims age now) d = (reclaim_stale_auto_commit_locks sha256 age now d).1
  effects (reconciles find moment age) d = (reconcile_claims sha256 find moment age d).1
  effects (auto_acquires path owner now) d =
      (acquire_lock sha256 path owner "auto_commit" none none now d).1
  effects (auto_releases path t) d = (release_lock sha256 path (some t) d).1

  -- What the callers keep to. A new id is not in use. An entry is finalized, and reconciliation runs,
  -- where no claim has a live twin. No pending lock has the time of an auto-commit lock.
  abbrev pub Allowed : Call → Disk → Type 0
  Allowed (enqueues fault p now q) d = Vacant p d.claimed
  Allowed (finalizes p path token) d = Vacant p d.live
  Allowed (reconciles find moment age) d = Apart d
  Allowed (auto_releases path t) d =
      (l : LockInfo)
      → lookup (path_lock_filename sha256 path) d.locks ≡ some (held l)
      → is_some_time t l.acquired_at ≡ true
      → is_auto_commit_lock l ≡ true
  Allowed _ d = Unit

  -- the disk after the first part of a call's effects: all of them, or those before a crash
  pub data Step (d d' : Disk) : Type 0 where
    performs :
        (c : Call)
        → Allowed c d
        → (done lost : List Effect) → effects c d ≡ done ++ lost
        → d' ≡ run done d
        → Step d d'

  pub data Reach (d : Disk) : Disk → Type 0 where
    here : Reach d d
    next : {d' d'' : Disk} → Reach d d' → Step d' d'' → Reach d d''

abbrev pub empty : Disk
empty = record { live = []; claimed = []; restoring = []; locks = [] }
