-- ===== src/Pending/Held/Enqueue.antt =====
-- pending.py: `enqueue`, with the failures of its write, and the invariant.
use data_olympus.Base.{
  ℕ, String, Bool, true, false, not, Option, none, some, List, lookup, has, ◌≡◌, ◌≢◌, refl, ap,
  eq_refl,
}
use data_olympus.Pending.Records.{Entry, EntryFile, doc, LockInfo, LockFile, Proposal, write_failed}
use data_olympus.Pending.Disk.{
  Disk, apply, write_live, link_lock, unlink_lock, Result, ok, err, raise,
}
use data_olympus.Pending.Ensures.{
  Ensures, Next, Ensures-pure, Ensures-raise, Ensures-emit, Ensures-guard, Ensures-gets,
  Ensures-bind, Ensures-weaken,
}
use data_olympus.Pending.Lock.{path_lock_filename, acquire_lock, is_auto_commit_lock}
use data_olympus.Pending.Queue.{
  WriteFault, completes, fails_before, fails_after, new_entry, normalized, publish,
  release_unpublished, enqueue,
}
use data_olympus.Pending.Held.{holder, owner, owner_at, owner_at-put, Held}
use data_olympus.Pending.Held.Effects.{Held-write_live, Held-link_lock, Held-unlink_lock}
use data_olympus.Pending.Held.Completion.{Vacant, release_lock-Ensures}
use data_olympus.Pending.Held.Fenced.{Kept}

module _ (sha256 : String → String) (path p : String) (d : Disk) where
  -- a pending lock that was just taken
  pub record Acquired (d' : Disk) : Type 0 where
    pub kept : Held sha256 d'
    pub owned : owner sha256 d'.locks path ≡ some p
    pub was_free : lookup (path_lock_filename sha256 path) d.locks ≡ none
    pub rest : (d'.live ≡ d.live) × (d'.claimed ≡ d.claimed)

  abbrev pub AcquirePost : Result ℕ → Disk → Type 0
  AcquirePost (ok t) d' = Acquired d'
  AcquirePost (err c) d' = Held sha256 d'

  pub free_of_test :
      (o : Option LockFile) → not (elim o [ none ↦ false | some _ ↦ true ]) ≡ true → o ≡ none
  free_of_test none h = refl
  free_of_test (some f) h = cc

  pub acquire_lock-Ensures :
      (intent : Option String) (contradicts : Option (List String)) (now : ℕ)
      → Held sha256 d
      → Ensures
          (Held sha256)
          (acquire_lock sha256 path p "pending" intent contradicts now)
          AcquirePost
          d
  unfolding acquire_lock
  acquire_lock-Ensures intent contradicts now h = Ensures-gets _ _ (
      Ensures-guard _ _ _ h (λ _. h)
        (λ free.
          let empty = free_of_test (lookup (path_lock_filename sha256 path) d.locks) free in
          let kept =
            Held-link_lock sha256 d h (path_lock_filename sha256 path) info empty
              (λ q is. named q is) in
          Ensures-emit _ _ h (
            Ensures-pure _ kept (record {
              kept = kept;
              owned = owned;
              was_free = empty;
              rest = unfold apply in (refl, refl);
            }))))
    where
      info : LockInfo
      info = record {
        pending_id = some p;
        target_path = some path;
        owner_kind = some "pending";
        acquired_at = some now;
        intent = intent;
        contradicts = contradicts;
      }

      named :
          (q : String)
          → some path ≡ some q
          → path_lock_filename sha256 q ≡ path_lock_filename sha256 path
      named q is = cc

      owned :
          owner sha256 (apply (link_lock (path_lock_filename sha256 path) info) d).locks path
          ≡ some p
      owned = unfold apply holder is_auto_commit_lock in simp (owner_at-put, eq_refl)

module _ (sha256 : String → String) (p : String) (e : Entry) (d : Disk) where
  vacant_of_test :
      (o : Option EntryFile)
      → (elim o [ none ↦ false | some _ ↦ true ]) ≡ false
      → (e' : Entry) → o ≢ some (doc e')
  vacant_of_test none h e' = λ same. cc
  vacant_of_test (some f) h e' = λ same. cc

  unlink_own :
      Held sha256 d
      → owner sha256 d.locks e.target_path ≡ some p
      → Vacant p d.live
      → Vacant p d.claimed
      → Held sha256 (apply (unlink_lock (path_lock_filename sha256 e.target_path)) d)
  unlink_own h own nl nc =
      Held-unlink_lock sha256 d h _
        (λ q e' at same. nl e' (rw (← only q e' same (h.live q e' at)) at))
        (λ q e' at same. nc e' (rw (← only q e' same (h.claimed q e' at)) at))
    where
      only :
          (q : String) (e' : Entry)
          → path_lock_filename sha256 e'.target_path ≡ path_lock_filename sha256 e.target_path
          → owner sha256 d.locks e'.target_path ≡ some q
          → q ≡ p
      only q e' same own' = cc (ap (owner_at d.locks) same)

  release_unpublished-Ensures :
      Held sha256 d
      → owner sha256 d.locks e.target_path ≡ some p
      → Vacant p d.claimed
      → (b : Bool) → has p d.live ≡ b
      → Ensures (Held sha256) (release_unpublished sha256 b e.target_path) (Kept sha256) d
  unfolding release_unpublished
  release_unpublished-Ensures h own nc true at = Ensures-pure _ h h
  release_unpublished-Ensures h own nc false at =
      release_lock-Ensures sha256 p e.target_path d none h
        (unlink_own h own (vacant_of_test (lookup p d.live) at) nc)

  fail_after_release :
      (r : Result Bool) (d' : Disk)
      → Held sha256 d'
      → Next (Held sha256) (Kept sha256) (λ _. raise {A = String} write_failed) r d'
  fail_after_release (ok b) d' h' = Ensures-raise _ h' h'
  fail_after_release (err c) d' h' = h'

module _ (sha256 : String → String) (p : String) (e : Entry) (d : Disk) where
  publish-Ensures :
      (fault : WriteFault)
      → Held sha256 d
      → owner sha256 d.locks e.target_path ≡ some p
      → Vacant p d.claimed
      → Ensures (Held sha256) (publish sha256 fault p e) (Kept sha256) d
  unfolding publish
  publish-Ensures completes h own nc =
      let h' = Held-write_live sha256 d h p e own in Ensures-emit _ _ h (Ensures-pure _ h' h')
  publish-Ensures fails_before h own nc = Ensures-gets _ _ (
      Ensures-bind _ _ (
        Ensures-weaken (Kept sha256) _
          (release_unpublished-Ensures sha256 p e d h own nc (has p d.live) refl)
          (fail_after_release sha256 p e d)))
  publish-Ensures fails_after h own nc = Ensures-emit _ _ h (
      Ensures-gets _ _ (
        Ensures-bind _ _ (
          Ensures-weaken (Kept sha256) _
            (release_unpublished-Ensures sha256 p e d' h' (unfold apply in own) (unfold apply in nc)
              (has p d'.live) refl)
            (fail_after_release sha256 p e d))))
    where
      d' : Disk
      d' = apply (write_live p e) d

      h' : Held sha256 d'
      h' = Held-write_live sha256 d h p e own

module _ (sha256 : String → String) (cap : ℕ) (p : String) (now : ℕ) (q : Proposal) (d : Disk) where
  pub enqueue-Ensures :
      (fault : WriteFault)
      → Held sha256 d
      → Vacant p d.claimed
      → Ensures (Held sha256) (enqueue cap sha256 fault p now q) (Kept sha256) d
  unfolding enqueue
  enqueue-Ensures fault h nc = Ensures-gets _ _ (
      Ensures-guard _ _ _ h (λ _. h)
        (λ _. Ensures-bind _ _ (
          Ensures-weaken (AcquirePost sha256 q.target_path p d) _
            (acquire_lock-Ensures sha256 q.target_path p d q.meta.intent
              (normalized q.meta.contradicts) now h)
            after)))
    where
      after :
          (r : Result ℕ) (d' : Disk)
          → AcquirePost sha256 q.target_path p d r d'
          → Next (Held sha256) (Kept sha256) (λ _. publish sha256 fault p (new_entry p q now)) r d'
      after (ok t) d' a =
          publish-Ensures sha256 p (new_entry p q now) d' fault a.kept a.owned (rw a.rest.1 nc)
      after (err c) d' h' = h'
