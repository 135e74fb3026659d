-- ===== src/Pending/Held/Claims.antt =====
-- pending.py: `_claim`, `_finish_claim` and the invariant.
use data_olympus.Base.{
  ℕ, String, true, false, Option, none, some, lookup, ◌≡◌, refl, lookup-put_self,
  lookup-remove_self,
}
use data_olympus.Pending.Records.{Entry, EntryFile, doc, garbled, denied}
use data_olympus.Pending.Disk.{
  Disk, apply, write_claimed, rename_claim, Result, ok, err, pure, gets, emit, ◌>>=◌,
}
use data_olympus.Pending.Ensures.{
  Ensures, Next, Ensures-pure, Ensures-raise, Ensures-emit, Ensures-guard, Ensures-gets,
  Ensures-bind, Ensures-effect, Ensures-weaken,
}
use data_olympus.Pending.Claim.{rename_to_claimed, stamped, claim, load_sidecar}
use data_olympus.Pending.Held.{Held}
use data_olympus.Pending.Held.Effects.{Held-rename_claim, Held-write_claimed}

-- what a successful claim leaves
pub record Claimed (sha256 : String → String) (p token : String) (now : ℕ) (d : Disk) (e : Entry)
    (d' : Disk) : Type 0 where
  pub kept : Held sha256 d'
  pub sidecar : lookup p d'.claimed ≡ some (doc e)
  pub gone : lookup p d'.live ≡ none
  pub same_locks : d'.locks ≡ d.locks
  pub was : (e₀ : Entry) × (lookup p d.live ≡ some (doc e₀)) × (e ≡ stamped token now e₀)

file_of {ℓ} :
    {A : Type ℓ} (o : Option A)
    → (elim o [ none ↦ false | some _ ↦ true ]) ≡ true
    → (a : A) × (o ≡ some a)
file_of none h = cc
file_of (some a) h = (a, refl)

module _ (sha256 : String → String) (p token : String) (now : ℕ) where
  abbrev pub ClaimPost : Disk → Result Entry → Disk → Type 0
  ClaimPost d (ok e) d' = Claimed sha256 p token now d e d'
  ClaimPost d (err c) d' = Held sha256 d'

  -- what the rename leaves
  record HasMoved (d : Disk) (f : EntryFile) (d' : Disk) : Type 0 where
    kept : Held sha256 d'
    same_locks : d'.locks ≡ d.locks
    gone : lookup p d'.live ≡ none
    moved : lookup p d'.claimed ≡ some f

  abbrev Renamed : Disk → Result (Unit {0}) → Disk → Type 0
  Renamed d (ok _) d' = (f : EntryFile) × (lookup p d.live ≡ some f) × HasMoved d f d'
  Renamed d (err c) d' = Held sha256 d'

  rename-HasMoved :
      (d : Disk) (f : EntryFile)
      → Held sha256 d
      → lookup p d.live ≡ some f
      → HasMoved d f (apply (rename_claim p) d)
  unfolding apply
  rename-HasMoved d f h at = record {
    kept = Held-rename_claim sha256 d h p;
    same_locks = rw (at, apply) refl;
    gone = rw (at, apply) (lookup-remove_self p d.live);
    moved = rw (at, apply) (lookup-put_self p f d.claimed);
  }

  rename-Ensures :
      (d : Disk) → Held sha256 d → Ensures (Held sha256) (rename_to_claimed p) (Renamed d) d
  unfolding rename_to_claimed
  rename-Ensures d h = Ensures-gets _ _ (
      Ensures-guard _ _ _ h (λ _. h)
        (λ there.
          let (f, at) = file_of (lookup p d.live) there in
          Ensures-effect _ h (Held-rename_claim sha256 d h p) (f, at, rename-HasMoved d f h at)))

  -- the sidecar is read back, stamped and rewritten
  stamp-Ensures :
      (d₀ d : Disk) (f : EntryFile)
      → Held sha256 d
      → d.locks ≡ d₀.locks
      → lookup p d.live ≡ none
      → lookup p d₀.live ≡ some f
      → lookup p d.claimed ≡ some f
      → Ensures
          (Held sha256)
          (load_sidecar (some f) >>= λ e.
            emit (write_claimed p (stamped token now e)) >>= λ _. pure (stamped token now e))
          (ClaimPost d₀)
          d
  unfolding load_sidecar
  stamp-Ensures d₀ d (doc e) h locks gone was at = Ensures-bind _ _ (
      Ensures-pure e h (
        Ensures-emit _ _ h (
          Ensures-pure _ kept (record {
            kept = kept;
            sidecar = unfold apply in lookup-put_self p (doc (stamped token now e)) d.claimed;
            gone = unfold apply in gone;
            same_locks = unfold apply in locks;
            was = (e, was, refl);
          }))))
    where
      kept : Held sha256 (apply (write_claimed p (stamped token now e)) d)
      kept = Held-write_claimed sha256 d h p (stamped token now e) (h.claimed p e at)
  stamp-Ensures d₀ d garbled h locks gone was at = Ensures-bind _ _ (Ensures-raise _ h h)
  stamp-Ensures d₀ d denied h locks gone was at = Ensures-bind _ _ (Ensures-raise _ h h)

  after_rename :
      (d : Disk) (r : Result (Unit {0})) (d' : Disk)
      → Renamed d r d'
      → Next
          (Held sha256)
          (ClaimPost d)
          (λ _. gets (λ d''. lookup p d''.claimed) >>= λ file. load_sidecar file >>= λ e.
            emit (write_claimed p (stamped token now e)) >>= λ _. pure (stamped token now e))
          r
          d'
  after_rename d (ok _) d' (f, at, m) =
      Ensures-gets _ _ (rw m.moved (stamp-Ensures d d' f m.kept m.same_locks m.gone at m.moved))
  after_rename d (err c) d' h = h

  pub claim-Ensures :
      (d : Disk) → Held sha256 d → Ensures (Held sha256) (claim p token now) (ClaimPost d) d
  unfolding claim
  claim-Ensures d h =
      Ensures-guard _ _ _ h (λ _. h)
        (λ _. Ensures-gets _ _ (
          Ensures-guard _ _ _ h (λ _. h)
            (λ there.
              Ensures-bind _ _
                (Ensures-weaken (Renamed d) _ (rename-Ensures d h) (after_rename d)))))
