-- ===== src/Pending/Held/Completion.antt =====
-- pending.py: `_finish_claim`, `approve`, `reject` and the invariant.
use data_olympus.Base.{
  ℕ, String, Bool, true, false, Option, none, some, List, lookup, remove, ◌≡◌, ◌≢◌, refl, arith,
  eq_iff, lookup-remove_self,
}
use data_olympus.Pending.Records.{Entry, EntryFile, doc, LockFile, held, unreadable}
use data_olympus.Pending.Disk.{
  Disk, apply, remove_claimed, unlink_lock, Result, ok, err, pure, ◌>>=◌,
}
use data_olympus.Pending.Ensures.{
  Ensures, Next, Ensures-pure, Ensures-emit, Ensures-gets, Ensures-bind, Ensures-weaken,
}
use data_olympus.Pending.Lock.{
  path_lock_filename, names_holder, may_release, unlink_if, release_if, release_lock,
  release_lock_owned_by,
}
use data_olympus.Pending.Claim.{finish_claim, approve, reject, to_resolved}
use data_olympus.Pending.Held.{holder, owner, owner_at, Held}
use data_olympus.Pending.Held.Effects.{Held-remove_claimed, Held-unlink_lock}
use data_olympus.Pending.Held.Claims.{ClaimPost, claim-Ensures}

-- no document is filed under the name
abbrev pub Vacant : String → List (String × EntryFile) → Type 0
Vacant p files = (e : Entry) → lookup p files ≢ some (doc e)

pub names_holder-holder :
    (p q : String) (f : Option LockFile) → names_holder p f ≡ true → holder f ≡ some q → q ≡ p
unfolding holder
names_holder-holder p q none h k = cc
names_holder-holder p q (some unreadable) h k = cc
names_holder-holder p q (some (held l)) h k = ground (arith, eq_iff q p)

module _ (sha256 : String → String) (p path : String) where
  -- the lock that names `p` protects nobody else
  unlink-Held :
      (d : Disk)
      → Held sha256 d
      → Vacant p d.live
      → Vacant p d.claimed
      → names_holder p (lookup (path_lock_filename sha256 path) d.locks) ≡ true
      → Held sha256 (apply (unlink_lock (path_lock_filename sha256 path)) d)
  unlink-Held d h nl nc named =
      Held-unlink_lock sha256 d h name
        (λ q e at same. nl e (rw (← only q e same (h.live q e at)) at))
        (λ q e at same. nc e (rw (← only q e same (h.claimed q e at)) at))
    where
      name : String
      name = path_lock_filename sha256 path

      only :
          (q : String) (e : Entry)
          → path_lock_filename sha256 e.target_path ≡ name
          → owner sha256 d.locks e.target_path ≡ some q
          → q ≡ p
      only q e same own =
          names_holder-holder p q (lookup name d.locks) named (unfold owner_at in rw same at own)

  abbrev pub KeptAfter {ℓ} : {A : Type ℓ} → Result A → Disk → Type 0
  KeptAfter r d = Held sha256 d

  pub release_lock-Ensures :
      (d : Disk) (expected : Option ℕ)
      → Held sha256 d
      → Held sha256 (apply (unlink_lock (path_lock_filename sha256 path)) d)
      → Ensures (Held sha256) (release_lock sha256 path expected) KeptAfter d
  unfolding release_lock
  release_lock-Ensures d expected h after =
      Ensures-gets _ _
        (by_test (may_release expected (lookup (path_lock_filename sha256 path) d.locks)))
    where
      by_test :
          (b : Bool)
          → Ensures (Held sha256) (unlink_if b (path_lock_filename sha256 path)) KeptAfter d
      by_test true = unfold unlink_if in Ensures-emit _ _ h (Ensures-pure _ after after)
      by_test false = unfold unlink_if in Ensures-pure _ h h

  pub release_owned-Ensures :
      (d : Disk)
      → Held sha256 d
      → Vacant p d.live
      → Vacant p d.claimed
      → Ensures (Held sha256) (release_lock_owned_by sha256 path p) KeptAfter d
  unfolding release_lock_owned_by
  release_owned-Ensures d h nl nc = Ensures-gets _ _ (
      by_test (names_holder p (lookup (path_lock_filename sha256 path) d.locks))
        (λ named. unlink-Held d h nl nc named))
    where
      by_test :
          (b : Bool)
          → (b ≡ true → Held sha256 (apply (unlink_lock (path_lock_filename sha256 path)) d))
          → Ensures (Held sha256) (release_if sha256 b path) KeptAfter d
      by_test true after = unfold release_if in release_lock-Ensures d none h (after refl)
      by_test false after = unfold release_if in Ensures-pure _ h h

  pub finish_claim-Ensures :
      (d : Disk)
      → Held sha256 d
      → Vacant p d.live
      → Ensures (Held sha256) (finish_claim sha256 p path) KeptAfter d
  unfolding finish_claim
  finish_claim-Ensures d h nl = Ensures-emit _ _ h (
      Ensures-bind _ _ (
        Ensures-weaken KeptAfter _
          (release_owned-Ensures (apply (remove_claimed p) d) after (unfold apply in nl)
            (unfold apply in λ e at. removed e at))
          finished))
    where
      after : Held sha256 (apply (remove_claimed p) d)
      after = Held-remove_claimed sha256 d h p

      removed : (e : Entry) → lookup p (remove p d.claimed) ≢ some (doc e)
      removed e at = ground (arith, lookup-remove_self p d.claimed)

      finished :
          (r : Result Bool) (d' : Disk)
          → Held sha256 d'
          → Next (Held sha256) KeptAfter (λ _. pure (tt {0})) r d'
      finished (ok b) d' h' = Ensures-pure _ h' h'
      finished (err c) d' h' = h'

module _ (sha256 : String → String) (p token : String) (now : ℕ) where
  abbrev Kept {ℓ} : {A : Type ℓ} → Result A → Disk → Type 0
  Kept r d = Held sha256 d

  Vacant-of_none : (d : Disk) → lookup p d.live ≡ none → Vacant p d.live
  Vacant-of_none d gone e at = ground arith

  -- Approving an entry: every crash point, and the end, keep the other entries' locks.
  pub approve-Ensures :
      (d : Disk) (edited_text : Option String)
      → Held sha256 d
      → Ensures (Held sha256) (approve sha256 p edited_text token now) Kept d
  unfolding approve
  approve-Ensures d edited_text h = Ensures-bind _ _ (
      Ensures-weaken (ClaimPost sha256 p token now d) _ (claim-Ensures sha256 p token now d h)
        after)
    where
      finished :
          (e : Entry) (r : Result (Unit {0})) (d' : Disk)
          → Held sha256 d'
          → Next (Held sha256) Kept (λ _. pure (to_resolved p e edited_text)) r d'
      finished e (ok b) d' h' = Ensures-pure _ h' h'
      finished e (err c) d' h' = h'

      after :
          (r : Result Entry) (d' : Disk)
          → ClaimPost sha256 p token now d r d'
          → Next
              (Held sha256)
              Kept
              (λ e. finish_claim sha256 p e.target_path >>= λ _. pure (to_resolved p e edited_text))
              r
              d'
      after (ok e) d' c = Ensures-bind _ _ (
          Ensures-weaken Kept _
            (finish_claim-Ensures sha256 p e.target_path d' c.kept (Vacant-of_none d' c.gone))
            (finished e))
      after (err c) d' h' = h'

  pub reject-Ensures :
      (d : Disk) → Held sha256 d → Ensures (Held sha256) (reject sha256 p token now) Kept d
  unfolding reject
  reject-Ensures d h = Ensures-bind _ _ (
      Ensures-weaken (ClaimPost sha256 p token now d) _ (claim-Ensures sha256 p token now d h)
        after)
    where
      after :
          (r : Result Entry) (d' : Disk)
          → ClaimPost sha256 p token now d r d'
          → Next (Held sha256) Kept (λ e. finish_claim sha256 p e.target_path) r d'
      after (ok e) d' c =
          finish_claim-Ensures sha256 p e.target_path d' c.kept (Vacant-of_none d' c.gone)
      after (err c) d' h' = h'
