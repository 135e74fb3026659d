-- ===== src/Pending/Recovered.antt =====
-- A recorded outcome and the reconciliation after it (pending.py): `record_outcome`, then a crash of
-- the resolver, then `_reconcile_one`.
use data_olympus.Base.{
  String, ℕ, true, Option, none, some, [], ◌∷◌, put, lookup, ◌≡◌, refl, arith, ap, ◌∙◌,
  lookup-put_self, lookup-remove_self, eq_refl,
}
use data_olympus.Pending.Records.{Entry, doc, WriteOutcome, committed, failed}
use data_olympus.Pending.Disk.{
  Disk, apply, run, ok, pure, gets, emit, guard, onward, ◌>>=◌, final, remove_claimed, unlink_lock,
}
use data_olympus.Pending.Lock.{path_lock_filename, names_holder}
use data_olympus.Pending.Claim.{
  sidecar, read_claim, token_matches, check_token, fenced, store_outcome, outcome_of,
  record_outcome, restore_resolve, as_enqueued, token_of, finalize_resolve, finish_claim,
}
use data_olympus.Pending.Reconcile.{Search, Report, by_outcome, reconcile_one}
use data_olympus.Pending.Survival.{restore_runs}
use data_olympus.Pending.Handling.{
  restored, restore-restored, cleared, finish_runs, finish-cleared, bind_final,
}

-- the entry with an outcome, and the disk that has it
abbrev pub with_outcome : WriteOutcome → Entry → Entry
with_outcome o e = record e { write_outcome = some o }

module _ (p token : String) (d : Disk) (e : Entry) where
  abbrev noted : WriteOutcome → Disk
  noted o = record d { claimed = put p (doc (with_outcome o e)) d.claimed }

  store-noted :
      (o : WriteOutcome)
      → lookup p d.claimed ≡ some (doc e)
      → token_of e ≡ some token
      → final (store_outcome p (some token) (some o)) d ≡ noted o
  unfolding store_outcome fenced read_claim sidecar check_token ◌>>=◌ onward gets pure guard emit
      run apply
  store-noted o at owns = ground (arith, at, owns, eq_refl token)

  module _ (sha256 : String → String) (find_commit : Entry → Search) (moment : ℕ) where
    restore_then :
        (o : WriteOutcome) (r : Report) (t : Option String)
        → t ≡ some token
        → token_of e ≡ some token
        → final (restore_resolve p t >>= λ _. pure r) (noted o)
          ≡ restored p token 0 d e (with_outcome o e) (noted o)
    unfolding pure run
    restore_then o r t is owns =
        let here : lookup p (noted o).claimed ≡ some (doc (with_outcome o e)) =
          lookup-put_self p (doc (with_outcome o e)) d.claimed in
        let fits : token_matches (some token) (with_outcome o e) ≡ true =
          ground (arith, owns, eq_refl token) in
        ap (λ x. final (restore_resolve p x >>= λ _. pure r) (noted o)) is
        ∙ bind_final (restore_resolve p (some token)) (λ _. pure r) (noted o) _ tt _
            (restore_runs p (noted o) (with_outcome o e) token here fits)
            (restore-restored p token 0 d e (noted o) (with_outcome o e) here fits)

    failure-restored :
        (why : String)
        → token_of e ≡ some token
        → final
            (reconcile_one sha256 find_commit moment p (with_outcome (failed why) e))
            (noted (failed why))
          ≡ restored p token 0 d e (with_outcome (failed why) e) (noted (failed why))
    unfolding reconcile_one by_outcome
    failure-restored why owns = restore_then (failed why) _ (token_of e) owns owns

    -- A claim whose resolver recorded with its token that the write failed, and then never came back,
    -- is undone by reconciliation: the entry is live again as it was enqueued, it is claimed no more,
    -- and every lock is as before.
    pub failure_undone :
        (why : String)
        → lookup p d.claimed ≡ some (doc e)
        → token_of e ≡ some token
        → let recorded = final (record_outcome p (some token) none (some why) none) d in
          let after =
            final
              (reconcile_one sha256 find_commit moment p (with_outcome (failed why) e))
              recorded in
          (lookup p recorded.claimed ≡ some (doc (with_outcome (failed why) e)))
          × ((lookup p after.live ≡ some (doc (as_enqueued e)))
              × ((lookup p after.claimed ≡ none) × (after.locks ≡ d.locks)))
    unfolding record_outcome outcome_of
    failure_undone why at owns = rw (store-noted (failed why) at owns) (
      lookup-put_self p (doc (with_outcome (failed why) e)) d.claimed,
      rw (failure-restored why owns) (
        lookup-put_self p (doc (as_enqueued e)) d.live,
        (lookup-remove_self p (noted (failed why)).claimed, refl),
      ),
    )

    fenced_runs :
        (d' : Disk) (c : Entry)
        → lookup p d'.claimed ≡ some (doc c)
        → token_of c ≡ some token
        → fenced p (some token) d' ≡ (ok c, [])
    unfolding fenced read_claim sidecar check_token ◌>>=◌ onward gets pure guard run
    fenced_runs d' c at owns = ground (arith, at, owns, eq_refl token)

    finalize_runs :
        (o : WriteOutcome)
        → token_of e ≡ some token
        → names_holder p (lookup (path_lock_filename sha256 e.target_path) d.locks) ≡ true
        → (finalize_resolve sha256 p e.target_path (some token) (noted o) ≡ (
          ok tt,
          remove_claimed p ∷ unlink_lock (path_lock_filename sha256 e.target_path) ∷ [],
        ))
          × (final (finalize_resolve sha256 p e.target_path (some token)) (noted o)
              ≡ cleared p token 0 d e sha256 (noted o))
    unfolding finalize_resolve ◌>>=◌ onward run
    finalize_runs o owns own =
        let here : lookup p (noted o).claimed ≡ some (doc (with_outcome o e)) =
          lookup-put_self p (doc (with_outcome o e)) d.claimed in
        let opens = fenced_runs (noted o) (with_outcome o e) here owns in
        let stays : final (fenced p (some token)) (noted o) ≡ noted o =
          ap (λ x. run x.1 (noted o)) opens in
        (
          rw opens (rw (finish_runs p token 0 d e sha256 (noted o) own) refl),
          bind_final (fenced p (some token)) (λ _. finish_claim sha256 p e.target_path) (noted o)
                (noted o) _ [] opens stays
              ∙ finish-cleared p token 0 d e sha256 (noted o) own,
        )

    finalize_then :
        (o : WriteOutcome) (r : Report) (t : Option String)
        → t ≡ some token
        → token_of e ≡ some token
        → names_holder p (lookup (path_lock_filename sha256 e.target_path) d.locks) ≡ true
        → final (finalize_resolve sha256 p e.target_path t >>= λ _. pure r) (noted o)
          ≡ cleared p token 0 d e sha256 (noted o)
    unfolding pure run
    finalize_then o r t is owns own =
        let (runs, ends) = finalize_runs o owns own in
        ap (λ x. final (finalize_resolve sha256 p e.target_path x >>= λ _. pure r) (noted o)) is
        ∙ bind_final (finalize_resolve sha256 p e.target_path (some token)) (λ _. pure r) (noted o)
            _ tt _ runs ends

    commit-cleared :
        (sha : String)
        → token_of e ≡ some token
        → names_holder p (lookup (path_lock_filename sha256 e.target_path) d.locks) ≡ true
        → final
            (reconcile_one sha256 find_commit moment p (with_outcome (committed sha) e))
            (noted (committed sha))
          ≡ cleared p token 0 d e sha256 (noted (committed sha))
    unfolding reconcile_one by_outcome
    commit-cleared sha owns own = finalize_then (committed sha) _ (token_of e) owns owns own

    -- A claim whose resolver recorded with its token the commit of the write, and then never came
    -- back, is completed by reconciliation where it holds the lock of its path: it is claimed no
    -- more, the lock is gone, and the live entries are as before, so the decision is not presented
    -- again.
    pub commit_completed :
        (sha : String)
        → lookup p d.claimed ≡ some (doc e)
        → token_of e ≡ some token
        → names_holder p (lookup (path_lock_filename sha256 e.target_path) d.locks) ≡ true
        → let recorded = final (record_outcome p (some token) (some sha) none none) d in
          let after =
            final
              (reconcile_one sha256 find_commit moment p (with_outcome (committed sha) e))
              recorded in
          (lookup p recorded.claimed ≡ some (doc (with_outcome (committed sha) e)))
          × ((lookup p after.claimed ≡ none)
              × ((lookup (path_lock_filename sha256 e.target_path) after.locks ≡ none)
                  × (after.live ≡ d.live)))
    unfolding record_outcome outcome_of
    commit_completed sha at owns own = rw (store-noted (committed sha) at owns) (
      lookup-put_self p (doc (with_outcome (committed sha) e)) d.claimed,
      rw (commit-cleared sha owns own) (
        lookup-remove_self p (noted (committed sha)).claimed,
        (lookup-remove_self (path_lock_filename sha256 e.target_path) d.locks, refl),
      ),
    )
