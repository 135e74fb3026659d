-- ===== src/Pending/Held/Apart.antt =====
-- pending.py: the condition that no id is both live and claimed. A restore passes through a disk where
-- one is, so it is a condition between the methods, not at every crash point.
use data_olympus.Base.{
  String, Bool, true, false, Option, none, some, Dict, lookup, put, remove, has, ◌≡◌, ◌≢◌, arith,
  eq_iff, lookup-put, lookup-remove, lookup-put_self, ◌==◌, if◌then◌else◌, Option-cases, inl, inr,
}
use data_olympus.Pending.Records.{Entry, EntryFile, doc}
use data_olympus.Pending.Disk.{
  Disk, apply, write_claimed, write_restoring, rename_publish, rename_back, remove_claimed,
  unlink_lock, Result, ok, err, pure, emit, ◌>>=◌,
}
use data_olympus.Pending.Ensures.{
  Ensures, Next, Ensures-pure, Ensures-emit, Ensures-effect, Ensures-gets, Ensures-bind,
  Ensures-weaken,
}
use data_olympus.Pending.Lock.{
  path_lock_filename, names_holder, may_release, unlink_if, release_if, release_lock,
  release_lock_owned_by,
}
use data_olympus.Pending.Claim.{
  restore_resolve, rename_if_there, finish_claim, finalize_resolve, as_enqueued,
}
use data_olympus.Pending.Held.Fenced.{Ensures-fenced}

pub record Apart (d : Disk) : Type 0 where
  pub apart :
      (p : String) (e e' : Entry)
      → lookup p d.claimed ≡ some (doc e)
      → lookup p d.live ≢ some (doc e')

-- nothing is asked of the disks on the way
abbrev pub Any : Disk → Type 0
Any d = Unit

abbrev pub StaysApart {ℓ} : {A : Type ℓ} → Result A → Disk → Type 0
StaysApart r d = Apart d

module _ (d : Disk) (h : Apart d) (p : String) where
  Apart-remove_claimed : Apart (apply (remove_claimed p) d)
  unfolding apply
  Apart-remove_claimed = record {
    apart = λ q e e' at. h.apart q e e' (ground (arith, lookup-remove p q d.claimed));
  }

  pub rewrite-Apart :
      (e e₀ : Entry)
      → lookup p d.claimed ≡ some (doc e₀)
      → Ensures Any (emit (write_claimed p e)) StaysApart d
  unfolding apply
  rewrite-Apart e e₀ at = Ensures-effect _ tt tt (record {
    apart = λ q f e' there here.
        h.apart q (if p == q then e₀ else f) e'
          (ground (arith, lookup-put p q (doc e) d.claimed, eq_iff p q)) here;
  })

  -- the lock calls change neither directory of entries
  release_owned-Apart :
      (sha256 : String → String) (path : String)
      → Ensures Any (release_lock_owned_by sha256 path p) StaysApart d
  unfolding release_lock_owned_by release_lock
  release_owned-Apart sha256 path =
      Ensures-gets _ _ (by_name (names_holder p (lookup (path_lock_filename sha256 path) d.locks)))
    where
      name : String
      name = path_lock_filename sha256 path

      unlinked : Apart (apply (unlink_lock name) d)
      unlinked = unfold apply in record { apart = h.apart }

      by_test : (b : Bool) → Ensures Any (unlink_if b name) StaysApart d
      by_test true = unfold unlink_if in Ensures-emit _ _ tt (Ensures-pure _ tt unlinked)
      by_test false = unfold unlink_if in Ensures-pure _ tt h

      by_name : (b : Bool) → Ensures Any (release_if sha256 b path) StaysApart d
      by_name true =
          unfold release_if release_lock in
          Ensures-gets _ _ (by_test (may_release none (lookup name d.locks)))
      by_name false = unfold release_if in Ensures-pure _ tt h

module _ (sha256 : String → String) (p path : String) (d : Disk) (h : Apart d) where
  finish_claim-Apart : Ensures Any (finish_claim sha256 p path) StaysApart d
  unfolding finish_claim
  finish_claim-Apart = Ensures-emit _ _ tt (
      Ensures-bind _ _ (
        Ensures-weaken StaysApart _
          (release_owned-Apart (apply (remove_claimed p) d) (Apart-remove_claimed d h p) p sha256
            path)
          done))
    where
      done :
          (r : Result Bool) (d' : Disk) → Apart d' → Next Any StaysApart (λ _. pure (tt {0})) r d'
      done (ok b) d' h' = Ensures-pure _ tt h'
      done (err c) d' h' = h'

  pub finalize_resolve-Apart :
      (token : Option String) → Ensures Any (finalize_resolve sha256 p path token) StaysApart d
  unfolding finalize_resolve
  finalize_resolve-Apart none = finish_claim-Apart
  finalize_resolve-Apart (some t) =
      Ensures-fenced p (some t) _ tt (λ _. h) (λ e f. finish_claim-Apart)

module _ (p : String) (d : Disk) (h : Apart d) where
  -- the entry went from the claims to the live ones
  moved_back :
      (f : EntryFile) (r : Dict EntryFile)
      → Apart (record d { live = put p f d.live; claimed = remove p d.claimed; restoring = r })
  moved_back f r = record {
    apart = λ q e e' at here.
        ground
          (arith, lookup-remove p q d.claimed, lookup-put p q f d.live, eq_iff p q, h.apart q e e');
  }

  back-Apart : Apart (apply (rename_back p) d)
  unfolding apply
  back-Apart = elim (Option-cases (lookup p d.claimed)) [
    | inl gone ↦ rw (gone, apply) h
    | inr (f, there) ↦ rw (there, apply) (moved_back f d.restoring)
  ]

  publish_restored-Apart :
      (e : Entry)
      → Ensures Any
          (emit (write_restoring p e) >>= λ _.
            emit (rename_publish p) >>= λ _. emit (remove_claimed p))
          StaysApart
          d
  publish_restored-Apart e = Ensures-emit _ _ tt (Ensures-emit _ _ tt (Ensures-effect _ tt tt ends))
    where
      ends :
          Apart
            (apply (remove_claimed p) (apply (rename_publish p) (apply (write_restoring p e) d)))
      ends =
          unfold apply in
          rw (lookup-put_self p (doc e) d.restoring, apply)
            (moved_back (doc e) (remove p (put p (doc e) d.restoring)))

  rename_if-Apart : (b : Bool) → Ensures Any (rename_if_there b p) StaysApart d
  unfolding rename_if_there
  rename_if-Apart true = Ensures-effect _ tt tt back-Apart
  rename_if-Apart false = Ensures-pure _ tt h

  pub restore_resolve-Apart :
      (token : Option String) → Ensures Any (restore_resolve p token) StaysApart d
  unfolding restore_resolve
  restore_resolve-Apart none = Ensures-gets _ _ (rename_if-Apart (has p d.claimed))
  restore_resolve-Apart (some t) =
      Ensures-fenced p (some t) _ tt (λ _. h) (λ e f. publish_restored-Apart (as_enqueued e))
