-- ===== src/Pending/Returns.antt =====
-- pending.py: which completions of a claim return, and rules for that.
use data_olympus.Base.{
  has, ℕ, String, Bool, true, false, Option, none, some, lookup, ◌≡◌, refl, arith, eq_refl,
}
use data_olympus.Pending.Records.{Entry, doc}
use data_olympus.Pending.Disk.{
  write_restoring, rename_publish, Disk, Effect, ok, Exec, pure, gets, emit, guard, onward, ◌>>=◌,
  run,
}
use data_olympus.Pending.Lock.{
  release_lock_owned_by, release_if, release_lock, unlink_if, path_lock_filename, may_release,
  names_holder,
}
use data_olympus.Pending.Claim.{
  as_enqueued, finish_claim, finalize_resolve, restore_resolve, rename_if_there, fenced, read_claim,
  sidecar, check_token, token_of,
}

-- the call returns
abbrev pub Returns {ℓ} : {A : Type ℓ} → Exec A → Disk → Type ℓ
Returns {A = A} m d = (a : A) × ((m d).0 ≡ ok a)

pub Returns-bind {ℓ κ} :
    {A : Type ℓ} {B : Type κ} (m : Exec A) (k : A → Exec B) (d : Disk)
    → Returns m d
    → ((a : A) (d' : Disk) → Returns (k a) d')
    → Returns (m >>= k) d
unfolding ◌>>=◌ onward
Returns-bind m k d (a, is) next = let (b, ends) = next a (run (m d).1 d) in (b, rw is ends)

pub Returns-emit {ℓ} :
    {A : Type ℓ} (x : Effect) (k : Exec A) (d : Disk)
    → ((d' : Disk) → Returns k d')
    → Returns (emit x >>= λ _. k) d
unfolding emit
Returns-emit x k d next = Returns-bind (emit x) (λ _. k) d (tt, refl) (λ u d'. next d')

module _ (sha256 : String → String) (p : String) where
  unlink_if-Returns : (b : Bool) (name : String) (d : Disk) → Returns (unlink_if b name) d
  unfolding unlink_if ◌>>=◌ onward emit pure run
  unlink_if-Returns true name d = (true, refl)
  unlink_if-Returns false name d = (false, refl)

  release_lock-Returns :
      (path : String) (t : Option ℕ) (d : Disk) → Returns (release_lock sha256 path t) d
  unfolding release_lock
  release_lock-Returns path t d =
      Returns-bind (gets (λ d. lookup (path_lock_filename sha256 path) d.locks)) _ d
        (unfold gets in (_, refl)) (λ f d'. unlink_if-Returns (may_release t f) _ d')

  release_if-Returns : (b : Bool) (path : String) (d : Disk) → Returns (release_if sha256 b path) d
  unfolding release_if pure
  release_if-Returns true path d = release_lock-Returns path none d
  release_if-Returns false path d = (false, refl)

  release_owned-Returns :
      (path : String) (d : Disk) → Returns (release_lock_owned_by sha256 path p) d
  unfolding release_lock_owned_by
  release_owned-Returns path d =
      Returns-bind (gets (λ d. lookup (path_lock_filename sha256 path) d.locks)) _ d
        (unfold gets in (_, refl)) (λ f d'. release_if-Returns (names_holder p f) path d')

  pub finish_claim-Returns : (path : String) (d : Disk) → Returns (finish_claim sha256 p path) d
  unfolding finish_claim pure
  finish_claim-Returns path d = Returns-emit _ _ d (λ d'.
      Returns-bind (release_lock_owned_by sha256 path p) _ d' (release_owned-Returns path d')
        (λ b after. (tt, refl)))

  fenced-Returns :
      (e : Entry) (d : Disk) (token : Option String)
      → token_of e ≡ token
      → lookup p d.claimed ≡ some (doc e)
      → Returns (fenced p token) d
  unfolding fenced read_claim sidecar check_token ◌>>=◌ onward gets pure guard
  fenced-Returns e d none is at = (e, ground (arith, at))
  fenced-Returns e d (some token) is at = (e, ground (arith, at, is, eq_refl token))

  pub finalize-Returns :
      (path : String) (e : Entry) (d : Disk) (token : Option String)
      → token_of e ≡ token
      → lookup p d.claimed ≡ some (doc e)
      → Returns (finalize_resolve sha256 p path token) d
  unfolding finalize_resolve
  finalize-Returns path e d none is at = finish_claim-Returns path d
  finalize-Returns path e d (some token) is at =
      Returns-bind (fenced p (some token)) _ d (fenced-Returns e d (some token) is at)
        (λ e' d'. finish_claim-Returns path d')

  rename_if_there-Returns : (b : Bool) (d : Disk) → Returns (rename_if_there b p) d
  unfolding rename_if_there emit pure
  rename_if_there-Returns true d = (tt, refl)
  rename_if_there-Returns false d = (tt, refl)

  pub restore-Returns :
      (e : Entry) (d : Disk) (token : Option String)
      → token_of e ≡ token
      → lookup p d.claimed ≡ some (doc e)
      → Returns (restore_resolve p token) d
  unfolding restore_resolve gets emit
  restore-Returns e d none is at =
      Returns-bind (gets (λ d. has p d.claimed)) _ d (_, refl)
        (λ b d'. rename_if_there-Returns b d')
  restore-Returns e d (some token) is at =
      Returns-bind (fenced p (some token)) _ d (fenced-Returns e d (some token) is at) (λ c d'.
        Returns-emit (write_restoring p (as_enqueued c)) _ d'
          (λ later. Returns-emit (rename_publish p) _ later (λ after. (tt, refl))))
