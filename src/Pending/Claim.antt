-- ===== src/Pending/Claim.antt =====
-- The claim of an entry and its completion in pending.py: `_claim`, `_finish_claim`, `approve`,
-- `claim_for_resolve`, `record_write_context`, `record_outcome`, `finalize_resolve`,
-- `restore_resolve`, `reject` and the readers of a claim record.
-- Each public method is one program: the write serializer keeps other transitions out.
use data_olympus.Base.{ℕ, String, Bool, true, false, Option, none, some, lookup, has, ◌==◌}
use data_olympus.Pending.Records.{
  Entry, EntryFile, doc, garbled, denied, Proposal, WriteOutcome, committed, failed, unknown,
  is_pending_id, not_found, already_resolved, claim_fenced, claim_unreadable, read_failed,
  value_error,
}
use data_olympus.Pending.Disk.{
  write_claimed, write_restoring, rename_claim, rename_back, rename_publish, remove_claimed, Exec,
  pure, raise, gets, emit, guard, ◌>>=◌, ◌>>◌,
}
use data_olympus.Pending.Lock.{release_lock_owned_by}

pub record Resolved : Type 0 where
  pub pending_id : String
  pub proposal : Proposal
  pub claim_token : String

-- `json.load` of the sidecar just renamed
unfoldable pub load_sidecar : Option EntryFile → Exec Entry
load_sidecar none = raise read_failed
load_sidecar (some (doc e)) = pure e
load_sidecar (some garbled) = raise read_failed
load_sidecar (some denied) = raise read_failed

-- `os.rename(src, claimed)`, the test-and-set
unfoldable pub rename_to_claimed : String → Exec (Unit {0})
rename_to_claimed pending_id = do
  there ← gets (λ d. has pending_id d.live)
  guard there already_resolved
  emit (rename_claim pending_id)

abbrev pub stamped : String → ℕ → Entry → Entry
stamped token now e = record e {
  claim = some (record { claim_token = token; claimed_at = some now });
}

-- `token` is the fresh uuid of the claim
unfoldable pub claim : String → String → ℕ → Exec Entry
claim pending_id token now = do
  guard (is_pending_id pending_id) not_found
  there ← gets (λ d. has pending_id d.live)
  guard there not_found
  rename_to_claimed pending_id
  file ← gets (λ d. lookup pending_id d.claimed)
  e ← load_sidecar file
  emit (write_claimed pending_id (stamped token now e))
  pure (stamped token now e)

abbrev pub token_of : Entry → Option String
token_of e = elim e.claim [ none ↦ none | some c ↦ some c.claim_token ]

abbrev pub or_empty : Option String → String
or_empty none = ""
or_empty (some s) = s

abbrev pub edited : Option String → Proposal → Proposal
edited none p = p
edited (some text) p = record p { postimage = text }

abbrev pub to_resolved : String → Entry → Option String → Resolved
to_resolved pending_id e edited_text = record {
  pending_id = pending_id;
  proposal = edited edited_text e.proposal;
  claim_token = or_empty (token_of e);
}

unfoldable pub sidecar : Option EntryFile → Exec Entry
sidecar none = raise claim_fenced
sidecar (some (doc e)) = pure e
sidecar (some garbled) = raise claim_unreadable
sidecar (some denied) = raise claim_unreadable

unfoldable pub read_claim : String → Exec Entry
read_claim pending_id = do file ← gets (λ d. lookup pending_id d.claimed); sidecar file

-- no token given is an unfenced call
abbrev pub token_matches : Option String → Entry → Bool
token_matches none e = true
token_matches (some t) e = elim (token_of e) [ none ↦ false | some u ↦ u == t ]

unfoldable pub check_token : Entry → Option String → Exec (Unit {0})
check_token e claim_token = guard (token_matches claim_token e) claim_fenced

unfoldable pub fenced : String → Option String → Exec Entry
fenced pending_id claim_token = do e ← read_claim pending_id; check_token e claim_token; pure e

unfoldable pub record_write_context : String → Option String → String → String → Exec (Unit {0})
record_write_context pending_id claim_token session_ref pre_write_ref_sha = do
  e ← fenced pending_id claim_token
  emit (
      write_claimed pending_id (record e {
        write_context =
            some (record { session_ref = session_ref; pre_write_ref_sha = pre_write_ref_sha });
      }))

-- exactly one of the three is given
unfoldable pub outcome_of : Option String → Option String → Option String → Option WriteOutcome
outcome_of (some sha) none none = some (committed sha)
outcome_of none (some reason) none = some (failed reason)
outcome_of none none (some reason) = some (unknown reason)
outcome_of _ _ _ = none

unfoldable pub store_outcome : String → Option String → Option WriteOutcome → Exec (Unit {0})
store_outcome pending_id claim_token none = raise value_error
store_outcome pending_id claim_token (some o) = do
  e ← fenced pending_id claim_token
  emit (write_claimed pending_id (record e { write_outcome = some o }))

unfoldable pub record_outcome :
    String → Option String → Option String → Option String → Option String → Exec (Unit {0})
record_outcome pending_id claim_token commit_sha failure unclear =
    store_outcome pending_id claim_token (outcome_of commit_sha failure unclear)

-- the live entry goes back to the proposal as it was enqueued
abbrev pub as_enqueued : Entry → Entry
as_enqueued e = record e {
  claim = none;
  write_context = none;
  write_outcome = none;
  reconcile = none;
  effective_postimage = none;
  effective_postimage_sha256 = none;
}

unfoldable pub rename_if_there : Bool → String → Exec (Unit {0})
rename_if_there true pending_id = emit (rename_back pending_id)
rename_if_there false pending_id = pure tt

unfoldable pub restore_resolve : String → Option String → Exec (Unit {0})
restore_resolve pending_id none = do
  there ← gets (λ d. has pending_id d.claimed)
  rename_if_there there pending_id
restore_resolve pending_id (some token) = do
  e ← fenced pending_id (some token)
  emit (write_restoring pending_id (as_enqueued e))
  emit (rename_publish pending_id)
  emit (remove_claimed pending_id)

module _ (sha256 : String → String) where
  unfoldable pub finish_claim : String → String → Exec (Unit {0})
  finish_claim pending_id target_path = do
    emit (remove_claimed pending_id)
    release_lock_owned_by sha256 target_path pending_id
    pure tt

  unfoldable pub approve : String → Option String → String → ℕ → Exec Resolved
  approve pending_id edited_text token now = do
    e ← claim pending_id token now
    finish_claim pending_id e.target_path
    pure (to_resolved pending_id e edited_text)

  unfoldable pub reject : String → String → ℕ → Exec (Unit {0})
  reject pending_id token now = do
    e ← claim pending_id token now
    finish_claim pending_id e.target_path

  unfoldable pub store_digest : String → Entry → Option String → Exec (Unit {0})
  store_digest pending_id e none = pure tt
  store_digest pending_id e (some text) =
      emit (write_claimed pending_id (record e { effective_postimage_sha256 = some (sha256 text) }))

  unfoldable pub claim_for_resolve : String → Option String → String → ℕ → Exec Resolved
  claim_for_resolve pending_id edited_text token now = do
    e ← claim pending_id token now
    store_digest pending_id e edited_text
    pure (to_resolved pending_id e edited_text)

  unfoldable pub finalize_resolve : String → String → Option String → Exec (Unit {0})
  finalize_resolve pending_id target_path none = finish_claim pending_id target_path
  finalize_resolve pending_id target_path (some token) = do
    fenced pending_id (some token)
    finish_claim pending_id target_path
