-- ===== src/Pending/Lock.antt =====
-- The per-path locks of pending.py: `_path_lock_filename`, `_acquire_lock`, `_release_lock`,
-- `_release_lock_owned_by` and `path_lock`. `sha256` is the hex digest of hashlib.
use Prim.Native.String.{◌++◌}
use data_olympus.Base.{
  ℕ, String, Bool, true, false, Option, none, some, List, lookup, has, not, eqb, ◌==◌,
}
use text.Mathlib.Text.{starts_with}
use data_olympus.Pending.Records.{LockInfo, LockFile, held, unreadable, path_lock_busy}
use data_olympus.Pending.Disk.{
  link_lock, unlink_lock, Exec, pure, gets, emit, guard, with_finally, ◌>>=◌, ◌>>◌,
}

-- `info.get(field) == value` on a field that may be absent
abbrev pub is_some_of : String → Option String → Bool
is_some_of s none = false
is_some_of s (some t) = t == s

abbrev pub is_some_time : ℕ → Option ℕ → Bool
is_some_time t none = false
is_some_time t (some u) = eqb u t

-- `_is_auto_commit_lock`: a lock of an older build has no `owner_kind`, and an `auto-commit:` holder
unfoldable pub is_auto_commit_lock : LockInfo → Bool
is_auto_commit_lock l = elim l.owner_kind [
  | some kind ↦ kind == "auto_commit"
  | none ↦ elim l.pending_id [ none ↦ false | some holder ↦ starts_with holder "auto-commit:" ]
]

unfoldable pub unlink_if : Bool → String → Exec Bool
unlink_if true name = do emit (unlink_lock name); pure true
unlink_if false name = pure false

abbrev pub may_release : Option ℕ → Option LockFile → Bool
may_release expected none = false
may_release none (some _) = true
may_release (some t) (some unreadable) = false
may_release (some t) (some (held l)) = is_some_time t l.acquired_at

abbrev pub names_holder : String → Option LockFile → Bool
names_holder pending_id none = false
names_holder pending_id (some unreadable) = false
names_holder pending_id (some (held l)) = is_some_of pending_id l.pending_id

module _ (sha256 : String → String) where
  unfoldable pub path_lock_filename : String → String
  path_lock_filename target_path = sha256 target_path ++ ".lock"

  -- `os.link` is the exclusive creation
  unfoldable pub acquire_lock :
      String → String → String → Option String → Option (List String) → ℕ → Exec ℕ
  acquire_lock target_path pending_id owner_kind intent contradicts now = do
    taken ← gets (λ d. has (path_lock_filename target_path) d.locks)
    guard (not taken) path_lock_busy
    emit (
        link_lock (path_lock_filename target_path) (record {
          pending_id = some pending_id;
          target_path = some target_path;
          owner_kind = some owner_kind;
          acquired_at = some now;
          intent = intent;
          contradicts = contradicts;
        }))
    pure now

  -- The pinned inode cannot change between the read and the unlink of one atomic program.
  unfoldable pub release_lock : String → Option ℕ → Exec Bool
  release_lock target_path expected_acquired_at = do
    file ← gets (λ d. lookup (path_lock_filename target_path) d.locks)
    unlink_if (may_release expected_acquired_at file) (path_lock_filename target_path)

  unfoldable pub release_if : Bool → String → Exec Bool
  release_if true target_path = release_lock target_path none
  release_if false target_path = pure false

  unfoldable pub release_lock_owned_by : String → String → Exec Bool
  release_lock_owned_by target_path pending_id = do
    file ← gets (λ d. lookup (path_lock_filename target_path) d.locks)
    release_if (names_holder pending_id file) target_path

  -- The body's own writes go by another store; here it is any program over this one.
  unfoldable pub path_lock {ℓ} : {A : Type ℓ} → String → String → ℕ → Exec A → Exec A
  path_lock target_path owner now body = do
    acquired_at ← acquire_lock target_path owner "auto_commit" none none now
    with_finally body (release_lock target_path (some acquired_at))
