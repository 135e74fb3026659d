-- ===== src/Pending/Held.antt =====
-- pending.py: the invariant of the queue. Every readable entry, live or claimed, holds the lock of its
-- target path, and a lock file stands under the name of the path in it. `owner` reads from the lock
-- files which entry holds a path.
pub mod Effects
pub mod Claims
pub mod Completion
pub mod Fenced
pub mod Enqueue
pub mod Sweeps
pub mod Apart
pub mod Reconciled
use data_olympus.Base.{
  String, Bool, true, false, Option, none, some, lookup, put, remove, Dict, ◌≡◌, ◌==◌, arith,
  eq_iff, lookup-put, lookup-remove, if◌then◌else◌,
}
use data_olympus.Pending.Records.{Entry, doc, LockInfo, LockFile, held, unreadable}
use data_olympus.Pending.Disk.{Disk}
use data_olympus.Pending.Lock.{is_auto_commit_lock, path_lock_filename}

-- the entry that a lock record names, if it is no auto-commit lock
unfoldable pub holder : Option LockFile → Option String
holder none = none
holder (some unreadable) = none
holder (some (held l)) = if is_auto_commit_lock l then none else l.pending_id

unfoldable pub owner_at : Dict LockFile → String → Option String
unfolding holder
owner_at locks name = holder (lookup name locks)

pub owner_at-put :
    (n m : String) (l : LockInfo) (locks : Dict LockFile)
    → owner_at (put n (held l) locks) m
      ≡ (if n == m then holder (some (held l)) else owner_at locks m)
unfolding owner_at
owner_at-put n m l locks = ground (arith, lookup-put n m (held l) locks)

pub owner_at-remove :
    (n m : String) (locks : Dict LockFile)
    → owner_at (remove n locks) m ≡ (if n == m then none else owner_at locks m)
unfolding owner_at holder
owner_at-remove n m locks = ground (arith, lookup-remove n m locks)

pub owner_at_free :
    (n : String) (locks : Dict LockFile) → lookup n locks ≡ none → owner_at locks n ≡ none
unfolding owner_at holder
owner_at_free n locks free = rw free

module _ (sha256 : String → String) where
  abbrev pub owner : Dict LockFile → String → Option String
  owner locks target_path = owner_at locks (path_lock_filename sha256 target_path)

  pub record Held (d : Disk) : Type 0 where
    pub live :
        (p : String) (e : Entry)
        → lookup p d.live ≡ some (doc e)
        → owner d.locks e.target_path ≡ some p
    pub claimed :
        (p : String) (e : Entry)
        → lookup p d.claimed ≡ some (doc e)
        → owner d.locks e.target_path ≡ some p
    pub named :
        (n : String) (l : LockInfo) (path : String)
        → lookup n d.locks ≡ some (held l)
        → l.target_path ≡ some path
        → path_lock_filename sha256 path ≡ n
