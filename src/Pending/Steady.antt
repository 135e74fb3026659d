-- ===== src/Pending/Steady.antt =====
-- pending.py: programs that leave the live entries alone.
use data_olympus.Base.{String, Bool, true, false, Option, none, some, List, ◌≡◌, refl, ◌∙◌}
use data_olympus.Pending.Records.{EntryFile, doc, garbled, denied, Fault}
use data_olympus.Pending.Disk.{
  Disk, Effect, remove_claimed, apply, run, Result, ok, err, Exec, pure, raise, gets, emit, guard,
  onward, ◌>>=◌, final,
}
use data_olympus.Pending.Ensures.{run-append}
use data_olympus.Pending.Lock.{
  names_holder, may_release, unlink_if, release_lock, release_if, release_lock_owned_by,
}
use data_olympus.Pending.Claim.{
  sidecar, read_claim, token_matches, check_token, fenced, finish_claim, finalize_resolve,
}

abbrev pub IsSteady : {A : Type 0} → Exec A → Type 0
IsSteady m = (d : Disk) → (final m d).live ≡ d.live

module _ {A B : Type 0} (m : Exec A) (f : A → Exec B) where
  onward-steady :
      ((a : A) → IsSteady (f a))
      → (d : Disk) (x : Result A) (es : List Effect) → (run es d).live ≡ d.live
      → (run (onward x es f d).1 d).live ≡ d.live
  unfolding onward
  onward-steady each d (ok a) es h = rw (run-append d es (f a (run es d)).1) (each a (run es d) ∙ h)
  onward-steady each d (err c) es h = h

  pub bind-IsSteady : IsSteady m → ((a : A) → IsSteady (f a)) → IsSteady (m >>= f)
  unfolding ◌>>=◌
  bind-IsSteady first each d = onward-steady each d (m d).0 (m d).1 (first d)

module _ {A : Type 0} where
  gets-IsSteady : (g : Disk → A) → IsSteady (gets g)
  unfolding gets run
  gets-IsSteady g d = refl

  pure-IsSteady : (a : A) → IsSteady (pure a)
  unfolding pure run
  pure-IsSteady a d = refl

guard-IsSteady : (b : Bool) (c : Fault) → IsSteady (guard b c)
unfolding guard run
guard-IsSteady true c d = refl
guard-IsSteady false c d = refl

sidecar-IsSteady : (file : Option EntryFile) → IsSteady (sidecar file)
unfolding sidecar raise pure run
sidecar-IsSteady none d = refl
sidecar-IsSteady (some (doc e)) d = refl
sidecar-IsSteady (some garbled) d = refl
sidecar-IsSteady (some denied) d = refl

fenced-IsSteady : (p : String) (token : Option String) → IsSteady (fenced p token)
unfolding fenced read_claim check_token
fenced-IsSteady p token =
    bind-IsSteady _ _ (bind-IsSteady _ _ (gets-IsSteady _) sidecar-IsSteady)
      λ e. bind-IsSteady _ _ (guard-IsSteady (token_matches token e) _) λ u. pure-IsSteady e

unlink-IsSteady : (b : Bool) (name : String) → IsSteady (unlink_if b name)
unfolding unlink_if ◌>>=◌ onward emit pure run apply
unlink-IsSteady true name d = refl
unlink-IsSteady false name d = refl

remove_claimed-IsSteady : (p : String) → IsSteady (emit (remove_claimed p))
unfolding emit run apply
remove_claimed-IsSteady p d = refl

module _ (sha256 : String → String) (p path : String) where
  release_if-IsSteady : (b : Bool) → IsSteady (release_if sha256 b path)
  unfolding release_if release_lock
  release_if-IsSteady true =
      bind-IsSteady _ _ (gets-IsSteady _) λ file. unlink-IsSteady (may_release none file) _
  release_if-IsSteady false = pure-IsSteady false

  finish_claim-IsSteady : IsSteady (finish_claim sha256 p path)
  unfolding finish_claim release_lock_owned_by
  finish_claim-IsSteady = bind-IsSteady _ _ (remove_claimed-IsSteady p) λ u.
      bind-IsSteady _ _
        (bind-IsSteady _ _ (gets-IsSteady _) λ file. release_if-IsSteady (names_holder p file))
        λ b. pure-IsSteady tt

  pub finalize_resolve-IsSteady :
      (token : Option String) → IsSteady (finalize_resolve sha256 p path token)
  unfolding finalize_resolve
  finalize_resolve-IsSteady none = finish_claim-IsSteady
  finalize_resolve-IsSteady (some token) =
      bind-IsSteady _ _ (fenced-IsSteady p (some token)) λ e. finish_claim-IsSteady
