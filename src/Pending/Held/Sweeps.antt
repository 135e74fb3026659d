-- ===== src/Pending/Held/Sweeps.antt =====
-- pending.py: `gc_orphan_locks`, `reclaim_stale_auto_commit_locks` and the invariant.
use data_olympus.Base.{
  ℕ, String, Bool, true, false, not, Option, none, some, List, [], ◌∷◌, lookup, keys, leb, ◌+◌, ◌≡◌,
  refl, arith, if◌then◌else◌, &&-true,
}
use data_olympus.Pending.Records.{Entry, doc, LockInfo, LockFile, held, unreadable}
use data_olympus.Pending.Disk.{Disk, apply, unlink_lock, Result, ok, err, Exec, pure, ◌>>=◌}
use data_olympus.Pending.Ensures.{
  Ensures, Next, Ensures-pure, Ensures-emit, Ensures-gets, Ensures-bind, Ensures-weaken,
}
use data_olympus.Pending.Lock.{path_lock_filename, is_auto_commit_lock, names_holder, release_lock}
use data_olympus.Pending.Sweep.{
  unlink_counted, candidate, has_entry, gc_held, gc_one, each_lock, gc_orphan_locks, counted,
  reclaim_auto, reclaim_file, reclaim_one, reclaim_stale_auto_commit_locks,
}
use data_olympus.Pending.Held.{holder, owner, owner_at, Held}
use data_olympus.Pending.Held.Effects.{Held-unlink_lock}
use data_olympus.Pending.Held.Completion.{names_holder-holder, release_lock-Ensures}
use data_olympus.Pending.Held.Fenced.{Kept}

occupied_live :
    (p : String) (e : Entry) (d : Disk)
    → lookup p d.live ≡ some (doc e)
    → not (has_entry p d) ≡ true
    → ⊥
occupied_live p e d at nobody = ground arith

occupied_claimed :
    (p : String) (e : Entry) (d : Disk)
    → lookup p d.claimed ≡ some (doc e)
    → not (has_entry p d) ≡ true
    → ⊥
occupied_claimed p e d at nobody = ground arith

module _ (sha256 : String → String) where
  unlink_counted-Ensures :
      (b : Bool) (name : String) (d : Disk)
      → Held sha256 d
      → (b ≡ true → Held sha256 (apply (unlink_lock name) d))
      → Ensures (Held sha256) (unlink_counted b name) (Kept sha256) d
  unfolding unlink_counted
  unlink_counted-Ensures true name d h after =
      Ensures-emit _ _ h (Ensures-pure _ (after refl) (after refl))
  unlink_counted-Ensures false name d h after = Ensures-pure _ h h

  -- a lock that names an entry of no file protects nothing
  orphan-Held :
      (name p : String) (d : Disk)
      → Held sha256 d
      → not (has_entry p d) ≡ true
      → names_holder p (lookup name d.locks) ≡ true
      → Held sha256 (apply (unlink_lock name) d)
  orphan-Held name p d h nobody named =
      Held-unlink_lock sha256 d h name
        (λ q e at same. occupied_live p e d (rw (← only q e same (h.live q e at)) at) nobody)
        (λ q e at same. occupied_claimed p e d (rw (← only q e same (h.claimed q e at)) at) nobody)
    where
      only :
          (q : String) (e : Entry)
          → path_lock_filename sha256 e.target_path ≡ name
          → owner sha256 d.locks e.target_path ≡ some q
          → q ≡ p
      only q e same own =
          names_holder-holder p q (lookup name d.locks) named (unfold owner_at in rw same at own)

  -- an auto-commit lock protects nothing
  pub auto-Held :
      (name : String) (l : LockInfo) (d : Disk)
      → Held sha256 d
      → lookup name d.locks ≡ some (held l)
      → is_auto_commit_lock l ≡ true
      → Held sha256 (apply (unlink_lock name) d)
  unfolding holder owner_at
  auto-Held name l d h at auto =
      Held-unlink_lock sha256 d h name (λ q e there same. nobody q (rw same at (h.live q e there)))
        (λ q e there same. nobody q (rw same at (h.claimed q e there)))
    where
      nobody : (q : String) → holder (lookup name d.locks) ≡ some q → ⊥
      nobody q own = ground (arith, at, auto)

  gc_one-Ensures :
      (name : String) (d : Disk)
      → Held sha256 d
      → Ensures (Held sha256) (gc_one name) (Kept sha256) d
  unfolding gc_one
  gc_one-Ensures name d h = Ensures-gets _ _ (by_holder (candidate (lookup name d.locks)))
    where
      by_holder : (c : Option String) → Ensures (Held sha256) (gc_held c name) (Kept sha256) d
      by_holder none = unfold gc_held in Ensures-pure _ h h
      by_holder (some p) =
          unfold gc_held in
          Ensures-gets _ _ (
            Ensures-gets _ _ (
              unlink_counted-Ensures _ name d h (λ both.
                let (nobody, named) = &&-true _ _ both in orphan-Held name p d h nobody named)))

  each_lock-Ensures :
      (one : String → Exec ℕ)
      → ((name : String) (d : Disk)
          → Held sha256 d
          → Ensures (Held sha256) (one name) (Kept sha256) d)
      → (names : List String) (d : Disk) → Held sha256 d
      → Ensures (Held sha256) (each_lock one names) (Kept sha256) d
  unfolding each_lock
  each_lock-Ensures one keep [] d h = Ensures-pure _ h h
  each_lock-Ensures one keep (name ∷ names) d h =
      let again = each_lock-Ensures one keep names in
      Ensures-bind _ _ (Ensures-weaken (Kept sha256) _ (keep name d h) (onto again))
    where
      summed :
          (n : ℕ) (r : Result ℕ) (d' : Disk)
          → Held sha256 d'
          → Next (Held sha256) (Kept sha256) (λ m. pure (n + m)) r d'
      summed n (ok m) d' h' = Ensures-pure _ h' h'
      summed n (err c) d' h' = h'

      onto :
          ((d : Disk) → Held sha256 d → Ensures (Held sha256) (each_lock one names) (Kept sha256) d)
          → (r : Result ℕ) (d' : Disk) → Held sha256 d'
          → Next (Held sha256) (Kept sha256) (λ n. each_lock one names >>= λ m. pure (n + m)) r d'
      onto again (ok n) d' h' =
          Ensures-bind _ _ (Ensures-weaken (Kept sha256) _ (again d' h') (summed n))
      onto again (err c) d' h' = h'

  -- Collecting orphaned locks frees no lock that protects an entry, at any point of the sweep.
  pub gc_orphan_locks-Ensures :
      (d : Disk) → Held sha256 d → Ensures (Held sha256) gc_orphan_locks (Kept sha256) d
  unfolding gc_orphan_locks
  gc_orphan_locks-Ensures d h =
      Ensures-gets _ _ (each_lock-Ensures gc_one gc_one-Ensures (keys d.locks) d h)

module _ (sha256 : String → String) (max_age_sec now : ℕ) where
  reclaim_auto-Ensures :
      (name : String) (l : LockInfo) (d : Disk)
      → Held sha256 d
      → lookup name d.locks ≡ some (held l)
      → is_auto_commit_lock l ≡ true
      → (path : Option String) (time : Option ℕ) → l.target_path ≡ path
      → Ensures (Held sha256) (reclaim_auto sha256 max_age_sec now name path time) (Kept sha256) d
  unfolding reclaim_auto
  reclaim_auto-Ensures name l d h at auto none time is = Ensures-pure _ h h
  reclaim_auto-Ensures name l d h at auto (some path) none is =
      unlink_counted-Ensures sha256 _ name d h (λ _. auto-Held sha256 name l d h at auto)
  reclaim_auto-Ensures name l d h at auto (some path) (some t) is =
      by_age (leb now (t + max_age_sec))
    where
      after : Held sha256 (apply (unlink_lock (path_lock_filename sha256 path)) d)
      after = rw (h.named name l path at is) (auto-Held sha256 name l d h at auto)

      done :
          (r : Result Bool) (d' : Disk)
          → Held sha256 d'
          → Next (Held sha256) (Kept sha256) (λ b. pure (counted b)) r d'
      done (ok b) d' h' = Ensures-pure _ h' h'
      done (err c) d' h' = h'

      by_age :
          (b : Bool)
          → Ensures
              (Held sha256)
              (if b then pure 0 else release_lock sha256 path (some t) >>= λ b. pure (counted b))
              (Kept sha256)
              d
      by_age true = Ensures-pure _ h h
      by_age false = Ensures-bind _ _ (
          Ensures-weaken (Kept sha256) _ (release_lock-Ensures sha256 name path d (some t) h after)
            done)

  reclaim_file-Ensures :
      (name : String) (d : Disk)
      → Held sha256 d
      → (f : Option LockFile) → lookup name d.locks ≡ f
      → Ensures (Held sha256) (reclaim_file sha256 max_age_sec now f name) (Kept sha256) d
  unfolding reclaim_file
  reclaim_file-Ensures name d h none at = Ensures-pure _ h h
  reclaim_file-Ensures name d h (some unreadable) at = Ensures-pure _ h h
  reclaim_file-Ensures name d h (some (held l)) at = by_kind (is_auto_commit_lock l) refl
    where
      by_kind :
          (b : Bool)
          → is_auto_commit_lock l ≡ b
          → Ensures
              (Held sha256)
              (if b
                then reclaim_auto sha256 max_age_sec now name l.target_path l.acquired_at
                else pure 0)
              (Kept sha256)
              d
      by_kind true auto = reclaim_auto-Ensures name l d h at auto l.target_path l.acquired_at refl
      by_kind false auto = Ensures-pure _ h h

  -- Reclaiming stale auto-commit locks frees no lock that protects an entry.
  pub reclaim-Ensures :
      (d : Disk)
      → Held sha256 d
      → Ensures
          (Held sha256)
          (reclaim_stale_auto_commit_locks sha256 max_age_sec now)
          (Kept sha256)
          d
  unfolding reclaim_stale_auto_commit_locks reclaim_one
  reclaim-Ensures d h = Ensures-gets _ _ (
      each_lock-Ensures sha256 _
        (λ name d' h'. Ensures-gets _ _ (reclaim_file-Ensures name d' h' _ refl)) (keys d.locks) d
        h)
