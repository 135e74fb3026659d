-- ===== src/Pending/Reconcile.antt =====
-- Reconciliation of interrupted claims in pending.py: `reconcile_claims`, `_reconcile_one` and
-- `claims_at_risk`. `find_commit` is the caller's search: it may find the commit, not find it, or
-- raise.
use text.Mathlib.Text.{is_lt}
use Prim.Native.String.{compare}
use data_olympus.Base.{
  ℕ, String, ◌+◌, Bool, true, not, Option, none, some, List, [], ◌∷◌, ◌++◌, lookup, keys, ltb, ◌==◌,
  if◌then◌else◌,
}
use data_olympus.Pending.Records.{
  Entry, EntryFile, doc, WriteOutcome, failed, Reason, durable_commit, linked_commit, no_search,
  nothing_found, recorded_failure, search_error, record_unreadable,
}
use data_olympus.Pending.Disk.{Disk, write_claimed, Exec, pure, gets, emit, ◌>>=◌, ◌>>◌}
use data_olympus.Pending.Claim.{restore_resolve, finalize_resolve, token_of}

pub data Search : Type 0 where
  absent : Search
  finds : Bool → Search
  raises : String → Search

pub data Verdict : Type 0 where
  finalized restored uncertain : Verdict

pub record Report : Type 0 where
  pub pending_id : String
  pub target_path : String
  pub verdict : Verdict
  pub reason : Reason

-- `sorted` on names
unfoldable pub insert_name : String → List String → List String
insert_name x [] = x ∷ []
insert_name x (y ∷ ys) =
    let rest = insert_name x ys in if is_lt (compare y x) then y ∷ rest else x ∷ y ∷ ys

unfoldable pub sort_names : List String → List String
sort_names [] = []
sort_names (x ∷ xs) = insert_name x (sort_names xs)

abbrev pub search_reason : Search → Reason
search_reason absent = no_search
search_reason (finds _) = nothing_found
search_reason (raises message) = search_error message

-- a claim with no usable time is taken as arbitrarily old
abbrev pub claimed_at : Entry → ℕ
claimed_at e = elim e.claim [ none ↦ 0 | some c ↦ elim c.claimed_at [ none ↦ 0 | some t ↦ t ] ]

module _ (sha256 : String → String) where
  abbrev pub digest_by : Option String → Entry → Entry
  digest_by none e = e
  digest_by (some text) e = record e {
    effective_postimage = none;
    effective_postimage_sha256 = some (sha256 text);
  }

  abbrev pub with_digest : Entry → Entry
  with_digest e = digest_by e.effective_postimage e

  unfoldable pub store_migrated : String → Option String → Entry → Exec (Unit {0})
  store_migrated pending_id none e = pure tt
  store_migrated pending_id (some text) e = emit (write_claimed pending_id (with_digest e))

  module _ (find_commit : Entry → Search) (moment : ℕ) where
    unfoldable pub by_search : String → Entry → Search → Exec Report
    by_search pending_id e (finds true) = do
      finalize_resolve sha256 pending_id e.target_path (token_of e)
      pure (record {
        pending_id = pending_id;
        target_path = e.target_path;
        verdict = finalized;
        reason = linked_commit;
      })
    by_search pending_id e result = do
      emit (
          write_claimed pending_id (record e {
            reconcile = some (record { reason = search_reason result; last_checked_at = moment });
          }))
      pure (record {
        pending_id = pending_id;
        target_path = e.target_path;
        verdict = uncertain;
        reason = search_reason result;
      })

    unfoldable pub by_outcome : String → Entry → Option WriteOutcome → Exec Report
    by_outcome pending_id e (some (WriteOutcome.committed sha)) = do
      finalize_resolve sha256 pending_id e.target_path (token_of e)
      pure (record {
        pending_id = pending_id;
        target_path = e.target_path;
        verdict = finalized;
        reason = durable_commit;
      })
    by_outcome pending_id e (some (failed why)) = do
      restore_resolve pending_id (token_of e)
      pure (record {
        pending_id = pending_id;
        target_path = e.target_path;
        verdict = restored;
        reason = recorded_failure why;
      })
    by_outcome pending_id e _ = by_search pending_id e (find_commit e)

    unfoldable pub reconcile_one : String → Entry → Exec Report
    reconcile_one pending_id e = by_outcome pending_id e e.write_outcome

    unfoldable pub old_enough : ℕ → Entry → Bool
    old_enough min_age_sec e = not (ltb moment (claimed_at e + min_age_sec))

    -- the body of the loop, past its `continue`s
    unfoldable pub reconcile_old : String → Entry → Exec (List Report)
    reconcile_old pending_id e = do
      store_migrated pending_id e.effective_postimage e
      report ← reconcile_one pending_id (with_digest e)
      pure (report ∷ [])

    unfoldable pub reconcile_file : ℕ → String → Option EntryFile → Exec (List Report)
    reconcile_file min_age_sec pending_id none = pure []
    reconcile_file min_age_sec pending_id (some (doc e)) =
        if old_enough min_age_sec e then reconcile_old pending_id e else pure []
    reconcile_file min_age_sec pending_id (some _) = pure (
        record {
          pending_id = pending_id;
          target_path = "";
          verdict = uncertain;
          reason = record_unreadable;
        }
        ∷ [])

    unfoldable pub reconcile_names : ℕ → List String → Exec (List Report)
    reconcile_names min_age_sec [] = pure []
    reconcile_names min_age_sec (name ∷ names) = do
      file ← gets (λ d. lookup name d.claimed)
      reports ← reconcile_file min_age_sec name file
      rest ← reconcile_names min_age_sec names
      pure (reports ++ rest)

    unfoldable pub reconcile_claims : ℕ → Exec (List Report)
    reconcile_claims min_age_sec = do
      names ← gets (λ d. sort_names (keys d.claimed))
      reconcile_names min_age_sec names

-- A claim on `session_ref` that a history rewrite could rob of its evidence.
pub record AtRisk : Type 0 where
  pub pending_id : String
  pub target_path : String

risk_of : String → String → Option EntryFile → List AtRisk
risk_of session_ref name none = []
risk_of session_ref name (some (doc e)) = elim e.write_context [
  | none ↦ []
  | some c ↦
      if c.session_ref == session_ref
      then record { pending_id = e.pending_id; target_path = e.target_path } ∷ []
      else []
]
risk_of session_ref name (some _) = record { pending_id = name; target_path = "" } ∷ []

risks : String → List String → Disk → List AtRisk
unfolding risk_of
risks session_ref [] d = []
risks session_ref (name ∷ names) d =
    risk_of session_ref name (lookup name d.claimed) ++ risks session_ref names d

unfoldable pub claims_at_risk : String → Disk → List AtRisk
unfolding risks
claims_at_risk session_ref d =
    if session_ref == "" then [] else risks session_ref (sort_names (keys d.claimed)) d
