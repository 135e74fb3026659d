-- ===== src/Pending/Survival.antt =====
-- pending.py: `_claim` and `restore_resolve` with a crash at any point.
use data_olympus.Base.{
  Bool-cases, String, ℕ, true, false, Option, none, some, [], ◌∷◌, put, lookup, ◌≡◌, ◌⊎◌, inl, inr,
  refl, arith, lookup-put_self,
}
use data_olympus.Pending.Records.{Entry, doc, Proposal, is_pending_id}
use data_olympus.Pending.Disk.{
  Disk, apply, run, ok, pure, raise, gets, emit, guard, onward, ◌>>=◌, write_claimed,
  write_restoring, rename_claim, rename_back, rename_publish, remove_claimed,
}
use data_olympus.Pending.Claim.{
  claim, rename_to_claimed, load_sidecar, stamped, sidecar, read_claim, token_matches, check_token,
  fenced, restore_resolve, rename_if_there, as_enqueued,
}
use data_olympus.Pending.Ensures.{AllStates}

-- The proposal can be read, awaiting a decision or claimed.
abbrev pub Present : String → Proposal → Disk → Type 0
Present p proposal d =
    (e : Entry) × ((lookup p d.live ≡ some (doc e)) ⊎ (lookup p d.claimed ≡ some (doc e)))
    × (e.proposal ≡ proposal)

module _ (p : String) (d : Disk) (e : Entry) where
  pub claim_runs :
      (token : String) (now : ℕ)
      → is_pending_id p ≡ true
      → lookup p d.live ≡ some (doc e)
      → claim p token now d
        ≡ (ok (stamped token now e), rename_claim p ∷ write_claimed p (stamped token now e) ∷ [])
  unfolding claim rename_to_claimed load_sidecar ◌>>=◌ onward gets pure raise guard emit run apply
  claim_runs token now valid at = ground (arith, valid, at, lookup-put_self p (doc e) d.claimed)

  pub restore_runs :
      (token : String)
      → lookup p d.claimed ≡ some (doc e)
      → token_matches (some token) e ≡ true
      → restore_resolve p (some token) d
        ≡ (ok tt, write_restoring p (as_enqueued e) ∷ rename_publish p ∷ remove_claimed p ∷ [])
  unfolding restore_resolve fenced read_claim sidecar check_token ◌>>=◌ onward gets pure raise guard
      emit run apply
  restore_runs token at owns = ground (arith, at, owns)

  restoring_Present :
      (e' : Entry)
      → e'.proposal ≡ e.proposal
      → lookup p d.claimed ≡ some (doc e)
      → AllStates
          (Present p e.proposal)
          d
          (write_restoring p e' ∷ rename_publish p ∷ remove_claimed p ∷ [])
  unfolding apply
  restoring_Present e' same at =
      let stored : lookup p (put p (doc e') d.restoring) ≡ some (doc e') =
        lookup-put_self p (doc e') d.restoring in
      (
        (e, inl' at, refl),
        (
          (e, inl' at, refl),
          (
            rw (stored, apply) (e', inl (lookup-put_self p (doc e') d.live), same),
            rw (stored, apply) (e', inl (lookup-put_self p (doc e') d.live), same),
          ),
        ),
      )
    where
      inl' :
          {A : Type 0} → lookup p d.claimed ≡ some (doc e) → A ⊎ (lookup p d.claimed ≡ some (doc e))
      inl' h = inr h

  rename_back_Present :
      lookup p d.claimed ≡ some (doc e) → AllStates (Present p e.proposal) d (rename_back p ∷ [])
  unfolding apply
  rename_back_Present at =
      ((e, inr at, refl), rw (at, apply) (e, inl (lookup-put_self p (doc e) d.live), refl))

  claiming_Present :
      (e' : Entry)
      → e'.proposal ≡ e.proposal
      → lookup p d.live ≡ some (doc e)
      → AllStates (Present p e.proposal) d (rename_claim p ∷ write_claimed p e' ∷ [])
  unfolding apply
  claiming_Present e' same at = (
    (e, inl at, refl),
    (
      rw (at, apply) (e, inr (lookup-put_self p (doc e) d.claimed), refl),
      rw (at, apply) (e', inr (lookup-put_self p (doc e') (put p (doc e) d.claimed)), same),
    ),
  )

  claim_refuses :
      (token : String) (now : ℕ) → is_pending_id p ≡ false → (claim p token now d).1 ≡ []
  unfolding claim ◌>>=◌ onward guard
  claim_refuses token now invalid = rw invalid refl

  -- A claim of a readable live entry never loses it: on every disk that a crash between its
  -- file-system calls can leave, an entry with this id, live or claimed, has the same proposal.
  pub claim-Present :
      (token : String) (now : ℕ)
      → lookup p d.live ≡ some (doc e)
      → AllStates (Present p e.proposal) d (claim p token now d).1
  claim-Present token now at = elim (Bool-cases (is_pending_id p)) [
    | inl valid ↦
        rw (claim_runs token now valid at) (claiming_Present (stamped token now e) refl at)
    | inr invalid ↦ rw (claim_refuses token now invalid) (e, inl at, refl)
  ]

  restore_refuses :
      (token : String)
      → lookup p d.claimed ≡ some (doc e)
      → token_matches (some token) e ≡ false
      → (restore_resolve p (some token) d).1 ≡ []
  unfolding restore_resolve fenced read_claim sidecar check_token ◌>>=◌ onward gets pure raise guard
  restore_refuses token at other = ground (arith, at, other)

  restore_unfenced :
      lookup p d.claimed ≡ some (doc e) → (restore_resolve p none d).1 ≡ rename_back p ∷ []
  unfolding restore_resolve rename_if_there ◌>>=◌ onward gets emit run
  restore_unfenced at = ground (arith, at)

  -- A restore of a readable claimed entry, fenced with any token or unfenced, never loses it: on
  -- every disk that a crash between its file-system calls can leave, an entry with this id, live or
  -- claimed, has the same proposal.
  pub restore-Present :
      (token : Option String)
      → lookup p d.claimed ≡ some (doc e)
      → AllStates (Present p e.proposal) d (restore_resolve p token d).1
  restore-Present none at = rw (restore_unfenced at) (rename_back_Present at)
  restore-Present (some token) at = elim (Bool-cases (token_matches (some token) e)) [
    | inl owns ↦ rw (restore_runs token at owns) (restoring_Present (as_enqueued e) refl at)
    | inr other ↦ rw (restore_refuses token at other) (e, inr at, refl)
  ]
