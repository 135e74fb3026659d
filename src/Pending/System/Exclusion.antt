-- ===== src/Pending/System/Exclusion.antt =====
-- pending.py: the proposals in flight for one path, in any use of the queue.
use data_olympus.Base.{
  ℕ, String, Bool, true, false, Option, none, some, List, [], ◌∷◌, ◌++◌, lookup, ◌≡◌, ◌⊎◌, inl, inr,
  refl, ap, arith,
}
use data_olympus.Pending.Records.{Entry, doc, LockInfo, LockFile, held, unreadable}
use data_olympus.Pending.Disk.{Disk, Effect, apply, run}
use data_olympus.Pending.Ensures.{
  AllStates, Ensures, Ensures-pure, Ensures-emit, Ensures-guard, Ensures-gets,
}
use data_olympus.Pending.Lock.{
  path_lock_filename, acquire_lock, release_lock, unlink_if, may_release, is_auto_commit_lock,
  is_some_time,
}
use data_olympus.Pending.Held.{owner, Held}
use data_olympus.Pending.Held.Effects.{Held-link_lock}
use data_olympus.Pending.Held.Completion.{approve-Ensures, reject-Ensures}
use data_olympus.Pending.Held.Fenced.{
  Kept, record_write_context-Ensures, record_outcome-Ensures, finalize_resolve-Ensures,
  restore_resolve-Ensures, claim_for_resolve-Ensures,
}
use data_olympus.Pending.Held.Enqueue.{free_of_test, enqueue-Ensures}
use data_olympus.Pending.Held.Sweeps.{gc_orphan_locks-Ensures, reclaim-Ensures, auto-Held}
use data_olympus.Pending.Held.Reconciled.{reconcile_claims-Sound}
use data_olympus.Pending.System.{
  Call, enqueues, approves, rejects, claims, records_context, records_outcome, finalizes, restores,
  collects, reclaims, reconciles, auto_acquires, auto_releases, effects, Allowed, Step, performs,
  Reach, here, next, empty,
}

AllStates-prefix {ℓ} :
    (P : Disk → Type ℓ) (d : Disk) (done lost : List Effect)
    → AllStates P d (done ++ lost)
    → P (run done d)
unfolding run
AllStates-prefix P d [] [] h = h
AllStates-prefix P d [] (e ∷ es) h = h.0
AllStates-prefix P d (e ∷ done) lost h = AllStates-prefix P (apply e d) done lost h.1

module _ (sha256 : String → String) where
  auto_acquire-Ensures :
      (path who : String) (now : ℕ) (d : Disk)
      → Held sha256 d
      → Ensures
          (Held sha256)
          (acquire_lock sha256 path who "auto_commit" none none now)
          (Kept sha256)
          d
  unfolding acquire_lock
  auto_acquire-Ensures path who now d h = Ensures-gets _ _ (
      Ensures-guard _ _ _ h (λ _. h)
        (λ free.
          let kept =
            Held-link_lock sha256 d h (path_lock_filename sha256 path) info
              (free_of_test sha256 path who d (lookup (path_lock_filename sha256 path) d.locks)
                free)
              (λ q is. named q is) in
          Ensures-emit _ _ h (Ensures-pure _ kept kept)))
    where
      info : LockInfo
      info = record {
        pending_id = some who;
        target_path = some path;
        owner_kind = some "auto_commit";
        acquired_at = some now;
        intent = none;
        contradicts = none;
      }

      named :
          (q : String)
          → some path ≡ some q
          → path_lock_filename sha256 q ≡ path_lock_filename sha256 path
      named q is = cc

  auto_release-Ensures :
      (path : String) (t : ℕ) (d : Disk)
      → Held sha256 d
      → ((l : LockInfo)
          → lookup (path_lock_filename sha256 path) d.locks ≡ some (held l)
          → is_some_time t l.acquired_at ≡ true
          → is_auto_commit_lock l ≡ true)
      → Ensures (Held sha256) (release_lock sha256 path (some t)) (Kept sha256) d
  unfolding release_lock
  auto_release-Ensures path t d h auto = Ensures-gets _ _ (by_file (lookup name d.locks) refl)
    where
      name : String
      name = path_lock_filename sha256 path

      by_test :
          (l : LockInfo) (b : Bool)
          → lookup name d.locks ≡ some (held l)
          → is_some_time t l.acquired_at ≡ b
          → Ensures (Held sha256) (unlink_if b name) (Kept sha256) d
      by_test l true at is =
          let h' = auto-Held sha256 name l d h at (auto l at is) in
          unfold unlink_if in Ensures-emit _ _ h (Ensures-pure _ h' h')
      by_test l false at is = unfold unlink_if in Ensures-pure _ h h

      by_file :
          (f : Option LockFile)
          → lookup name d.locks ≡ f
          → Ensures (Held sha256) (unlink_if (may_release (some t) f) name) (Kept sha256) d
      by_file none at = unfold unlink_if in Ensures-pure _ h h
      by_file (some unreadable) at = unfold unlink_if in Ensures-pure _ h h
      by_file (some (held l)) at = by_test l (is_some_time t l.acquired_at) at refl

module _ (cap : ℕ) (sha256 : String → String) where
  effects-Held :
      (c : Call) (d : Disk)
      → Held sha256 d
      → Allowed cap sha256 c d
      → AllStates (Held sha256) d (effects cap sha256 c d)
  unfolding effects
  effects-Held (enqueues fault p now q) d h ok_c =
      (enqueue-Ensures sha256 cap p now q d fault h ok_c).every
  effects-Held (approves p text token now) d h ok_c =
      (approve-Ensures sha256 p token now d text h).every
  effects-Held (rejects p token now) d h ok_c = (reject-Ensures sha256 p token now d h).every
  effects-Held (claims p text token now) d h ok_c =
      (claim_for_resolve-Ensures sha256 p token now d text h).every
  effects-Held (records_context p token ref pre) d h ok_c =
      (record_write_context-Ensures sha256 p d h token ref pre).every
  effects-Held (records_outcome p token sha failure unclear) d h ok_c =
      (record_outcome-Ensures sha256 p d h token sha failure unclear).every
  effects-Held (finalizes p path token) d h ok_c =
      (finalize_resolve-Ensures sha256 p d h path token ok_c).every
  effects-Held (restores p token) d h ok_c = (restore_resolve-Ensures sha256 p d h token).every
  effects-Held collects d h ok_c = (gc_orphan_locks-Ensures sha256 d h).every
  effects-Held (reclaims age now) d h ok_c = (reclaim-Ensures sha256 age now d h).every
  effects-Held (reconciles find moment age) d h ok_c =
      (reconcile_claims-Sound sha256 find moment age d (record { held = h; apart = ok_c })).every
  effects-Held (auto_acquires path who now) d h ok_c =
      (auto_acquire-Ensures sha256 path who now d h).every
  effects-Held (auto_releases path t) d h ok_c = (auto_release-Ensures sha256 path t d h ok_c).every

  Step-Held : {d d' : Disk} → Step cap sha256 d d' → Held sha256 d → Held sha256 d'
  Step-Held {d} (performs c ok_c done lost split is) h =
      rw is (AllStates-prefix (Held sha256) d done lost (rw (← split) (effects-Held c d h ok_c)))

  pub Reach-Held : {d d' : Disk} → Held sha256 d → Reach cap sha256 d d' → Held sha256 d'
  Reach-Held h here = h
  Reach-Held h (next r s) = Step-Held s (Reach-Held h r)

  pub empty-Held : Held sha256 empty
  unfolding lookup
  empty-Held = record {
    live = λ p e at. absurd (ground arith);
    claimed = λ p e at. absurd (ground arith);
    named = λ n l path at is. absurd (ground arith);
  }

-- the entry is on disk, awaiting a decision or claimed
abbrev pub InFlight : Disk → String → Entry → Type 0
InFlight d p e = (lookup p d.live ≡ some (doc e)) ⊎ (lookup p d.claimed ≡ some (doc e))

module _ (cap : ℕ) (sha256 : String → String) where
  pub InFlight-owner :
      (d : Disk) (p : String) (e : Entry)
      → Held sha256 d
      → InFlight d p e
      → owner sha256 d.locks e.target_path ≡ some p
  InFlight-owner d p e h (inl at) = h.live p e at
  InFlight-owner d p e h (inr at) = h.claimed p e at

  -- From the empty queue, by any calls that keep to `Allowed`, with crashes at any point between
  -- their file-system calls: two readable entries, live or claimed, with one target path have one
  -- pending id. `Allowed` asks that the id of a new entry is in no readable sidecar, that an entry is
  -- finalized where no live entry has its id, that reconciliation starts where no id is both live
  -- and claimed, and that the time an auto-commit releases by is no pending lock's.
  pub Reach-exclusive :
      (d : Disk) (p q : String) (e e' : Entry)
      → Reach cap sha256 empty d
      → InFlight d p e
      → InFlight d q e'
      → e.target_path ≡ e'.target_path
      → p ≡ q
  Reach-exclusive d p q e e' r f f' same =
      let h = Reach-Held cap sha256 (empty-Held cap sha256) r in
      cc (
        InFlight-owner d p e h f,
        InFlight-owner d q e' h f',
        ap (λ path. owner sha256 d.locks path) same,
      )
