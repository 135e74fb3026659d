-- ===== src/Pending/Disk.antt =====
-- The two directories of pending.py, and its methods as programs over them.
-- A program returns or raises, and leaves the list of the file-system calls it made, in order.
-- Each call is atomic (`os.link`, `os.rename`, `os.unlink`, `atomic_write_json`), so a crash
-- leaves the disk after some first part of that list.
use data_olympus.Base.{
  String, Bool, true, false, none, some, List, [], ◌∷◌, ◌++◌, Dict, lookup, put, remove,
}
use data_olympus.Pending.Records.{Entry, EntryFile, doc, LockInfo, LockFile, held, Fault}

-- files by their names: a pending id for the entries, the file's name for the locks
pub record Disk : Type 0 where
  pub live : Dict EntryFile
  pub claimed : Dict EntryFile
  pub restoring : Dict EntryFile
  pub locks : Dict LockFile

pub data Effect : Type 0 where
  write_live write_claimed write_restoring : String → Entry → Effect
  rename_claim rename_back rename_publish : String → Effect
  remove_claimed : String → Effect
  link_lock : String → LockInfo → Effect
  unlink_lock : String → Effect

unfoldable pub apply : Effect → Disk → Disk
apply (write_live p e) d = record d { live = put p (doc e) d.live }
apply (write_claimed p e) d = record d { claimed = put p (doc e) d.claimed }
apply (write_restoring p e) d = record d { restoring = put p (doc e) d.restoring }
apply (rename_claim p) d = elim (lookup p d.live) [
  | none ↦ d
  | some f ↦ record d { live = remove p d.live; claimed = put p f d.claimed }
]
apply (rename_back p) d = elim (lookup p d.claimed) [
  | none ↦ d
  | some f ↦ record d { live = put p f d.live; claimed = remove p d.claimed }
]
apply (rename_publish p) d = elim (lookup p d.restoring) [
  | none ↦ d
  | some f ↦ record d { live = put p f d.live; restoring = remove p d.restoring }
]
apply (remove_claimed p) d = record d { claimed = remove p d.claimed }
apply (link_lock n l) d = record d { locks = put n (held l) d.locks }
apply (unlink_lock n) d = record d { locks = remove n d.locks }

unfoldable pub run : List Effect → Disk → Disk
run [] d = d
run (e ∷ es) d = run es (apply e d)

pub data Result {ℓ} (A : Type ℓ) : Type ℓ where
  ok : A → Result A
  err : Fault → Result A

abbrev pub Exec {ℓ} : Type ℓ → Type ℓ
Exec A = Disk → Result A × List Effect

module _ {ℓ} {A : Type ℓ} where
  unfoldable pub pure : A → Exec A
  pure a d = (ok a, [])

  unfoldable pub raise : Fault → Exec A
  raise c d = (err c, [])

  unfoldable pub gets : (Disk → A) → Exec A
  gets f d = (ok (f d), [])

unfoldable pub emit : Effect → Exec (Unit {0})
emit e d = (ok tt, e ∷ [])

unfoldable pub guard : Bool → Fault → Exec (Unit {0})
guard true c d = (ok tt, [])
guard false c d = (err c, [])

module _ {ℓ κ} {A : Type ℓ} {B : Type κ} where
  unfoldable pub onward : Result A → List Effect → (A → Exec B) → Exec B
  onward (ok a) es f d = let (r, es') = f a (run es d) in (r, es ++ es')
  onward (err c) es f d = (err c, es)

  infixl 10 ◌>>=◌ ◌>>◌
  unfoldable pub ◌>>=◌ : Exec A → (A → Exec B) → Exec B
  unfolding onward
  ◌>>=◌ m f d = let (r, es) = m d in onward r es f d

  abbrev pub ◌>>◌ : Exec A → Exec B → Exec B
  m >> k = m >>= λ _. k

-- `try: m; finally: k`
unfoldable pub with_finally {ℓ} : {A : Type ℓ} → Exec A → Exec Bool → Exec A
with_finally m k d = let (r, es) = m d in let (_, es') = k (run es d) in (r, es ++ es')

-- the disk that a completed call leaves
abbrev pub final {ℓ} : {A : Type ℓ} → Exec A → Disk → Disk
final m d = run (m d).1 d
