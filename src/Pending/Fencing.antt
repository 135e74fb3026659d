-- ===== src/Pending/Fencing.antt =====
-- pending.py: the fence of a claim's completions (`_check_token`).
use data_olympus.Base.{subst, sym, String, false, Option, none, some, [], lookup, ◌≡◌, refl, arith}
use data_olympus.Pending.Records.{EntryFile, doc, garbled, denied, claim_fenced, WriteOutcome}
use data_olympus.Pending.Disk.{Disk, err, Exec, pure, raise, gets, guard, onward, ◌>>=◌}
use data_olympus.Pending.Claim.{
  sidecar, read_claim, token_matches, check_token, fenced, record_write_context, outcome_of,
  store_outcome, record_outcome, finalize_resolve, restore_resolve,
}

-- the sidecar is gone, or it carries another token
abbrev pub Superseded : String → Option EntryFile → Type 0
Superseded token none = Unit
Superseded token (some (doc e)) = token_matches (some token) e ≡ false
Superseded token (some garbled) = ⊥
Superseded token (some denied) = ⊥

-- the call raises the fence's exception and makes no file-system call
abbrev pub Refused {ℓ} : {A : Type ℓ} → Exec A → Disk → Type ℓ
Refused m d = m d ≡ (err claim_fenced, [])

Refused-bind {ℓ κ} :
    {A : Type ℓ} {B : Type κ} (m : Exec A) (k : A → Exec B) (d : Disk)
    → Refused m d
    → Refused (m >>= k) d
unfolding ◌>>=◌ onward
Refused-bind m k d h = rw h refl

module _ (p token : String) (d : Disk) (old : Superseded token (lookup p d.claimed)) where
  fenced-Refused : Refused (fenced p (some token)) d
  unfolding fenced read_claim sidecar check_token ◌>>=◌ onward gets pure raise guard
  fenced-Refused = by_file (lookup p d.claimed) refl old
    where
      by_file :
          (f : Option EntryFile)
          → lookup p d.claimed ≡ f
          → Superseded token f
          → Refused (fenced p (some token)) d
      by_file none at h = ground (arith, at)
      by_file (some (doc e)) at h = ground (arith, at, h)
      by_file (some garbled) at h = absurd h
      by_file (some denied) at h = absurd h

  -- A resolver whose sidecar is gone or carries another token gets the fence's exception from each
  -- of the four completions (with one outcome given), and none of them makes a file-system call: a
  -- successor's entry and lock stay as they are.
  pub superseded_changes_nothing :
      (sha256 : String → String) (path session_ref pre : String)
      (commit_sha failure unclear : Option String) (o : WriteOutcome)
      → outcome_of commit_sha failure unclear ≡ some o
      → Refused (record_write_context p (some token) session_ref pre) d
        × (Refused (record_outcome p (some token) commit_sha failure unclear) d
            × (Refused (finalize_resolve sha256 p path (some token)) d
                × Refused (restore_resolve p (some token)) d))
  superseded_changes_nothing sha256 path session_ref pre commit_sha failure unclear o one = (
    unfold record_write_context in Refused-bind (fenced p (some token)) _ d fenced-Refused,
    (
      unfold record_outcome in
          subst (λ x. Refused (store_outcome p (some token) x) d) (sym one) stored,
      (
        unfold finalize_resolve in Refused-bind (fenced p (some token)) _ d fenced-Refused,
        unfold restore_resolve in Refused-bind (fenced p (some token)) _ d fenced-Refused,
      ),
    ),
  )
    where
      stored : Refused (store_outcome p (some token) (some o)) d
      stored = unfold store_outcome in Refused-bind (fenced p (some token)) _ d fenced-Refused
