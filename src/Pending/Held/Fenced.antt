-- ===== src/Pending/Held/Fenced.antt =====
-- pending.py: `_read_claim` with `_check_token`, the methods behind this fence, and the invariant.
use data_olympus.Base.{
  ℕ, String, Bool, true, false, Option, none, some, [], lookup, ◌≡◌, ◌⊎◌, inl, inr, refl,
  Bool-cases, lookup-put_self, has,
}
use data_olympus.Pending.Records.{
  Entry, EntryFile, doc, garbled, denied, Fault, claim_fenced, claim_unreadable, WriteOutcome,
}
use data_olympus.Pending.Disk.{
  Disk, apply, write_claimed, write_restoring, rename_publish, remove_claimed, Result, ok, err,
  Exec, pure, raise, gets, guard, emit, ◌>>=◌,
}
use data_olympus.Pending.Ensures.{
  Ensures, Next, Ensures-pure, Ensures-raise, Ensures-emit, Ensures-effect, Ensures-gets,
  Ensures-bind, Ensures-weaken, Ensures-returned, Ensures-raised,
}
use data_olympus.Pending.Claim.{
  sidecar, read_claim, token_matches, check_token, fenced, record_write_context, record_outcome,
  store_outcome, outcome_of, as_enqueued, restore_resolve, rename_if_there, finalize_resolve,
  claim_for_resolve, store_digest, to_resolved,
}
use data_olympus.Pending.Held.{Held}
use data_olympus.Pending.Held.Effects.{
  Held-write_claimed, Held-write_restoring, Held-rename_publish, Held-remove_claimed,
  Held-rename_back,
}
use data_olympus.Pending.Held.Claims.{Claimed, ClaimPost, claim-Ensures}
use data_olympus.Pending.Held.Completion.{Vacant, finish_claim-Ensures}

-- a claim record that the token fits
pub record Fenced (p : String) (token : Option String) (d : Disk) (e : Entry) : Type 0 where
  pub stored : lookup p d.claimed ≡ some (doc e)
  pub fits : token_matches token e ≡ true

-- a fenced read changes nothing, and returns only a record that the token fits
pub fenced-cases :
    (p : String) (token : Option String) (d : Disk)
    → ((c : Fault) × (fenced p token d ≡ (err c, [])))
      ⊎ ((e : Entry) × (fenced p token d ≡ (ok e, [])) × Fenced p token d e)
unfolding fenced read_claim check_token sidecar ◌>>=◌ pure raise gets guard
fenced-cases p token d = by_file (lookup p d.claimed) refl
  where
    by_file :
        (f : Option EntryFile)
        → lookup p d.claimed ≡ f
        → ((c : Fault) × (fenced p token d ≡ (err c, [])))
          ⊎ ((e : Entry) × (fenced p token d ≡ (ok e, [])) × Fenced p token d e)
    by_file none at = inl (claim_fenced, rw (at, sidecar) refl)
    by_file (some garbled) at = inl (claim_unreadable, rw (at, sidecar) refl)
    by_file (some denied) at = inl (claim_unreadable, rw (at, sidecar) refl)
    by_file (some (doc e)) at = elim (Bool-cases (token_matches token e)) [
      | inl fits ↦
          inr (e, rw (at, sidecar) (rw (fits, guard) refl), record { stored = at; fits = fits })
      | inr fails ↦ inl (claim_fenced, rw (at, sidecar) (rw (fails, guard) refl))
    ]

module _ {A : Type 0} {I : Disk → Type 0} {post : Result A → Disk → Type 0} {d : Disk} where
  pub Ensures-fenced :
      (p : String) (token : Option String) (f : Entry → Exec A)
      → I d
      → ((c : Fault) → post (err c) d)
      → ((e : Entry) → Fenced p token d e → Ensures I (f e) post d)
      → Ensures I (fenced p token >>= f) post d
  Ensures-fenced p token f i q h = elim (fenced-cases p token d) [
    | inl (c, raised) ↦ Ensures-raised _ f c raised i (q c)
    | inr (e, returned, ok_e) ↦ Ensures-returned _ f e returned (h e ok_e)
  ]

abbrev pub Kept {ℓ} : {A : Type ℓ} → (String → String) → Result A → Disk → Type 0
Kept sha256 r d = Held sha256 d

module _ (sha256 : String → String) (p : String) (d : Disk) (h : Held sha256 d) where
  -- a claim record rewritten with its own target path
  pub rewrite-Ensures :
      (e e' : Entry)
      → lookup p d.claimed ≡ some (doc e)
      → e'.target_path ≡ e.target_path
      → Ensures (Held sha256) (emit (write_claimed p e')) (Kept sha256) d
  rewrite-Ensures e e' at same = Ensures-effect _ h kept kept
    where
      kept : Held sha256 (apply (write_claimed p e') d)
      kept = Held-write_claimed sha256 d h p e' (rw same (h.claimed p e at))

  pub record_write_context-Ensures :
      (token : Option String) (ref pre : String)
      → Ensures (Held sha256) (record_write_context p token ref pre) (Kept sha256) d
  unfolding record_write_context
  record_write_context-Ensures token ref pre =
      Ensures-fenced p token _ h (λ _. h) (λ e f. rewrite-Ensures e _ f.stored refl)

  store_outcome-Ensures :
      (token : Option String) (o : Option WriteOutcome)
      → Ensures (Held sha256) (store_outcome p token o) (Kept sha256) d
  unfolding store_outcome
  store_outcome-Ensures token none = Ensures-raise _ h h
  store_outcome-Ensures token (some o) =
      Ensures-fenced p token _ h (λ _. h) (λ e f. rewrite-Ensures e _ f.stored refl)

  pub record_outcome-Ensures :
      (token sha failure unclear : Option String)
      → Ensures (Held sha256) (record_outcome p token sha failure unclear) (Kept sha256) d
  unfolding record_outcome
  record_outcome-Ensures token sha failure unclear =
      store_outcome-Ensures token (outcome_of sha failure unclear)

  pub finalize_resolve-Ensures :
      (path : String) (token : Option String)
      → Vacant p d.live
      → Ensures (Held sha256) (finalize_resolve sha256 p path token) (Kept sha256) d
  unfolding finalize_resolve
  finalize_resolve-Ensures path none nl = finish_claim-Ensures sha256 p path d h nl
  finalize_resolve-Ensures path (some t) nl =
      Ensures-fenced p (some t) _ h (λ _. h) (λ e f. finish_claim-Ensures sha256 p path d h nl)

  -- the scratch file is published by one rename, and the sidecar goes last
  publish_restored :
      (e : Entry)
      → lookup p d.claimed ≡ some (doc e)
      → Ensures
          (Held sha256)
          (emit (write_restoring p (as_enqueued e)) >>= λ _.
            emit (rename_publish p) >>= λ _. emit (remove_claimed p))
          (Kept sha256)
          d
  publish_restored e at = Ensures-emit _ _ h (Ensures-emit _ _ h₁ (Ensures-effect _ h₂ h₃ h₃))
    where
      d₁ : Disk
      d₁ = apply (write_restoring p (as_enqueued e)) d

      h₁ : Held sha256 d₁
      h₁ = Held-write_restoring sha256 d h p (as_enqueued e)

      h₂ : Held sha256 (apply (rename_publish p) d₁)
      h₂ =
          Held-rename_publish sha256 d₁ h₁ p (as_enqueued e)
            (unfold apply in lookup-put_self p (doc (as_enqueued e)) d.restoring)
            (unfold apply in h.claimed p e at)

      h₃ : Held sha256 (apply (remove_claimed p) (apply (rename_publish p) d₁))
      h₃ = Held-remove_claimed sha256 (apply (rename_publish p) d₁) h₂ p

  rename_if-Ensures : (b : Bool) → Ensures (Held sha256) (rename_if_there b p) (Kept sha256) d
  unfolding rename_if_there
  rename_if-Ensures true = let h' = Held-rename_back sha256 d h p in Ensures-effect _ h h' h'
  rename_if-Ensures false = Ensures-pure _ h h

  pub restore_resolve-Ensures :
      (token : Option String) → Ensures (Held sha256) (restore_resolve p token) (Kept sha256) d
  unfolding restore_resolve
  restore_resolve-Ensures none = Ensures-gets _ _ (rename_if-Ensures (has p d.claimed))
  restore_resolve-Ensures (some t) =
      Ensures-fenced p (some t) _ h (λ _. h) (λ e f. publish_restored e f.stored)

module _ (sha256 : String → String) (p token : String) (now : ℕ) where
  pub claim_for_resolve-Ensures :
      (d : Disk) (edited_text : Option String)
      → Held sha256 d
      → Ensures (Held sha256) (claim_for_resolve sha256 p edited_text token now) (Kept sha256) d
  unfolding claim_for_resolve
  claim_for_resolve-Ensures d edited_text h = Ensures-bind _ _ (
      Ensures-weaken (ClaimPost sha256 p token now d) _ (claim-Ensures sha256 p token now d h)
        after)
    where
      returned :
          (e : Entry) (r : Result (Unit {0})) (d' : Disk)
          → Held sha256 d'
          → Next (Held sha256) (Kept sha256) (λ _. pure (to_resolved p e edited_text)) r d'
      returned e (ok b) d' h' = Ensures-pure _ h' h'
      returned e (err c) d' h' = h'

      digest :
          (text : Option String) (e : Entry) (d' : Disk)
          → Claimed sha256 p token now d e d'
          → Ensures (Held sha256) (store_digest sha256 p e text) (Kept sha256) d'
      digest none e d' c = unfold store_digest in Ensures-pure _ c.kept c.kept
      digest (some t) e d' c =
          unfold store_digest in rewrite-Ensures sha256 p d' c.kept e _ c.sidecar refl

      after :
          (r : Result Entry) (d' : Disk)
          → ClaimPost sha256 p token now d r d'
          → Next
              (Held sha256)
              (Kept sha256)
              (λ e. store_digest sha256 p e edited_text >>= λ _. pure (to_resolved p e edited_text))
              r
              d'
      after (ok e) d' c =
          Ensures-bind _ _ (Ensures-weaken (Kept sha256) _ (digest edited_text e d' c) (returned e))
      after (err c) d' h' = h'
