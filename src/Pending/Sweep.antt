-- ===== src/Pending/Sweep.antt =====
-- The two sweeps over lock files in pending.py: `gc_orphan_locks`, which goes by the entries, and
-- `reclaim_stale_auto_commit_locks`, which goes by age. A sweep is one program.
use data_olympus.Base.{
  ℕ, String, ◌+◌, Bool, true, false, not, ◌&&◌, ◌||◌, Option, none, some, List, [], ◌∷◌, lookup,
  has, keys, ltb, leb, if◌then◌else◌,
}
use data_olympus.Pending.Records.{LockFile, held, unreadable, is_pending_id}
use data_olympus.Pending.Disk.{Disk, unlink_lock, Exec, pure, gets, emit, ◌>>=◌, ◌>>◌}
use data_olympus.Pending.Lock.{is_auto_commit_lock, names_holder, release_lock}

unfoldable pub unlink_counted : Bool → String → Exec ℕ
unlink_counted true name = do emit (unlink_lock name); pure 1
unlink_counted false name = pure 0

-- the holder of a lock, if it has the form of a pending id
unfoldable pub candidate : Option LockFile → Option String
candidate none = none
candidate (some unreadable) = none
candidate (some (held l)) = elim l.pending_id [
  | none ↦ none
  | some holder ↦ if is_pending_id holder then some holder else none
]

abbrev pub has_entry : String → Disk → Bool
has_entry holder d = has holder d.live || has holder d.claimed

unfoldable pub gc_held : Option String → String → Exec ℕ
gc_held none name = pure 0
gc_held (some holder) name = do
  there ← gets (has_entry holder)
  still ← gets (λ d. names_holder holder (lookup name d.locks))
  unlink_counted (not there && still) name

unfoldable pub gc_one : String → Exec ℕ
gc_one name = do file ← gets (λ d. lookup name d.locks); gc_held (candidate file) name

-- the loop over one listing of the directory
unfoldable pub each_lock : (String → Exec ℕ) → List String → Exec ℕ
each_lock one [] = pure 0
each_lock one (name ∷ names) = do n ← one name; m ← each_lock one names; pure (n + m)

unfoldable pub gc_orphan_locks : Exec ℕ
gc_orphan_locks = do names ← gets (λ d. keys d.locks); each_lock gc_one names

abbrev pub counted : Bool → ℕ
counted true = 1
counted false = 0

module _ (sha256 : String → String) (max_age_sec now : ℕ) where
  -- an auto-commit lock whose path is a text; within one program a second read of the file agrees
  unfoldable pub reclaim_auto : String → Option String → Option ℕ → Exec ℕ
  reclaim_auto name none acquired_at = pure 0
  reclaim_auto name (some target_path) none = unlink_counted (not (ltb 0 max_age_sec)) name
  reclaim_auto name (some target_path) (some acquired_at) =
      if leb now (acquired_at + max_age_sec)
      then pure 0
      else do released ← release_lock sha256 target_path (some acquired_at); pure (counted released)

  unfoldable pub reclaim_file : Option LockFile → String → Exec ℕ
  reclaim_file none name = pure 0
  reclaim_file (some unreadable) name = pure 0
  reclaim_file (some (held l)) name =
      if is_auto_commit_lock l then reclaim_auto name l.target_path l.acquired_at else pure 0

  unfoldable pub reclaim_one : String → Exec ℕ
  reclaim_one name = do file ← gets (λ d. lookup name d.locks); reclaim_file file name

  unfoldable pub reclaim_stale_auto_commit_locks : Exec ℕ
  reclaim_stale_auto_commit_locks = do names ← gets (λ d. keys d.locks); each_lock reclaim_one names
