-- ===== src/Pending/Evidence.antt =====
-- pending.py: `_reconcile_one`, what it reports and does, and what the claim's record and the search
-- showed.
use mathlib.Core.List.{append-nil}
use data_olympus.Base.{
  subst, ◌≢◌, String, ℕ, true, false, Option, none, some, List, [], ◌∷◌, lookup, ◌≡◌, ◌⊎◌, inl, inr,
  refl,
}
use data_olympus.Pending.Records.{
  Entry, doc, WriteOutcome, committed, failed, unknown, Reason, linked_commit, no_search,
  search_error, nothing_found, Uncertain,
}
use data_olympus.Pending.Disk.{
  Disk, Effect, write_claimed, Result, ok, err, Exec, pure, emit, onward, ◌>>=◌, run,
}
use data_olympus.Pending.Claim.{token_of, finalize_resolve, restore_resolve}
use data_olympus.Pending.Returns.{
  Returns, Returns-emit, Returns-bind, finalize-Returns, restore-Returns,
}
use data_olympus.Pending.Reconcile.{
  Search, absent, finds, raises, Verdict, finalized, restored, uncertain, Report, by_search,
  by_outcome, reconcile_one,
}

module _ (sha256 : String → String) (find_commit : Entry → Search) (moment : ℕ) where
  -- a recorded commit, or no recorded failure and a search that found the commit
  abbrev pub Committed : Entry → Type 0
  Committed e =
      ((sha : String) × (e.write_outcome ≡ some (committed sha)))
      ⊎ (((why : String) → e.write_outcome ≢ some (failed why)) × (find_commit e ≡ finds true))

  abbrev pub Failed : Entry → Type 0
  Failed e = (why : String) × (e.write_outcome ≡ some (failed why))

  -- what stands behind a report, and what was done: a completion of the claim under its own token,
  -- or one write of its own sidecar
  abbrev pub Founded : String → Entry → Disk → Verdict → List Effect → Type 0
  Founded p e d finalized es =
      Committed e × (es ≡ (finalize_resolve sha256 p e.target_path (token_of e) d).1)
  Founded p e d restored es = Failed e × (es ≡ (restore_resolve p (token_of e) d).1)
  Founded p e d uncertain es =
      (u : Uncertain) × (es ≡ write_claimed p (record e { reconcile = some u }) ∷ [])

  report_of {ℓ} :
      {A : Type ℓ} (m : Exec A) (rep r : Report) (d : Disk)
      → ((m >>= λ _. pure rep) d).0 ≡ ok r
      → rep ≡ r
  unfolding ◌>>=◌ onward pure
  report_of {A = A} m rep r d h = by_result (m d).0 (m d).1 h
    where
      by_result :
          (x : Result A) (es : List Effect) → (onward x es (λ _. pure rep) d).0 ≡ ok r → rep ≡ r
      by_result (ok a) es h = cc
      by_result (err c) es h = cc

  effects_of {ℓ} :
      {A : Type ℓ} (m : Exec A) (rep : Report) (d : Disk) → ((m >>= λ _. pure rep) d).1 ≡ (m d).1
  unfolding ◌>>=◌ onward pure
  effects_of {A = A} m rep d = by_result (m d).0 (m d).1
    where
      by_result : (x : Result A) (es : List Effect) → (onward x es (λ _. pure rep) d).1 ≡ es
      by_result (ok a) es = append-nil es
      by_result (err c) es = refl

  Founded-of :
      (p : String) (e : Entry) (d : Disk) (rep r : Report) (es : List Effect)
      → rep ≡ r
      → Founded p e d rep.verdict es
      → Founded p e d r.verdict es
  Founded-of p e d rep r es same h = subst (λ x. Founded p e d x.verdict es) same h

  -- the report on a claim that stays undecided
  abbrev undecided : String → Entry → Reason → Report
  undecided p e why = record {
    pending_id = p;
    target_path = e.target_path;
    verdict = uncertain;
    reason = why;
  }

  abbrev linked : String → Entry → Report
  linked p e = record (undecided p e linked_commit) { verdict = finalized }

  abbrev noted : Entry → Reason → Entry
  noted e why = record e { reconcile = some (record { reason = why; last_checked_at = moment }) }

  undecided-Founded :
      (p : String) (e : Entry) (d : Disk) (r : Report) (why : Reason)
      → ((emit (write_claimed p (noted e why)) >>= λ _. pure (undecided p e why)) d).0 ≡ ok r
      → Founded p e d r.verdict (write_claimed p (noted e why) ∷ [])
  undecided-Founded p e d r why h =
      Founded-of p e d (undecided p e why) r (write_claimed p (noted e why) ∷ [])
        (report_of (emit (write_claimed p (noted e why))) (undecided p e why) r d h)
        (record { reason = why; last_checked_at = moment }, refl)

  by_search-Founded :
      (p : String) (e : Entry) (d : Disk) (r : Report) (s : Search)
      → find_commit e ≡ s
      → ((why : String) → e.write_outcome ≢ some (failed why))
      → (by_search sha256 find_commit moment p e s d).0 ≡ ok r
      → Founded p e d r.verdict (by_search sha256 find_commit moment p e s d).1
  unfolding by_search ◌>>=◌ onward emit pure run
  by_search-Founded p e d r absent is no_failure h = undecided-Founded p e d r no_search h
  by_search-Founded p e d r (raises m) is no_failure h =
      undecided-Founded p e d r (search_error m) h
  by_search-Founded p e d r (finds true) is no_failure h =
      let finalize = finalize_resolve sha256 p e.target_path (token_of e) in
      let found : Committed e = inr (no_failure, is) in
      Founded-of p e d (linked p e) r _ (report_of finalize (linked p e) r d h)
        (found, effects_of finalize (linked p e) d)
  by_search-Founded p e d r (finds false) is no_failure h =
      undecided-Founded p e d r nothing_found h

  by_outcome-Founded :
      (p : String) (e : Entry) (d : Disk) (r : Report) (o : Option WriteOutcome)
      → e.write_outcome ≡ o
      → (by_outcome sha256 find_commit moment p e o d).0 ≡ ok r
      → Founded p e d r.verdict (by_outcome sha256 find_commit moment p e o d).1
  unfolding by_outcome
  by_outcome-Founded p e d r (some (committed sha)) is h =
      Founded-of p e d _ r _ (report_of _ _ r d h) (inl (sha, is), effects_of _ _ d)
  by_outcome-Founded p e d r (some (failed why)) is h =
      Founded-of p e d _ r _ (report_of _ _ r d h) ((why, is), effects_of _ _ d)
  by_outcome-Founded p e d r (some (unknown why)) is h =
      by_search-Founded p e d r (find_commit e) refl (λ w same. cc) h
  by_outcome-Founded p e d r none is h =
      by_search-Founded p e d r (find_commit e) refl (λ w same. cc) h

  by_search-Returns :
      (p : String) (e : Entry) (d : Disk) (s : Search)
      → lookup p d.claimed ≡ some (doc e)
      → Returns (by_search sha256 find_commit moment p e s) d
  unfolding by_search pure
  by_search-Returns p e d absent at = Returns-emit _ _ d (λ d'. (_, refl))
  by_search-Returns p e d (raises m) at = Returns-emit _ _ d (λ d'. (_, refl))
  by_search-Returns p e d (finds false) at = Returns-emit _ _ d (λ d'. (_, refl))
  by_search-Returns p e d (finds true) at =
      Returns-bind (finalize_resolve sha256 p e.target_path (token_of e)) _ d
        (finalize-Returns sha256 p e.target_path e d (token_of e) refl at) (λ u d'. (_, refl))

  by_outcome-Returns :
      (p : String) (e : Entry) (d : Disk) (o : Option WriteOutcome)
      → lookup p d.claimed ≡ some (doc e)
      → Returns (by_outcome sha256 find_commit moment p e o) d
  unfolding by_outcome pure
  by_outcome-Returns p e d (some (committed sha)) at =
      Returns-bind (finalize_resolve sha256 p e.target_path (token_of e)) _ d
        (finalize-Returns sha256 p e.target_path e d (token_of e) refl at) (λ u d'. (_, refl))
  by_outcome-Returns p e d (some (failed why)) at =
      Returns-bind (restore_resolve p (token_of e)) _ d
        (restore-Returns sha256 p e d (token_of e) refl at) (λ u d'. (_, refl))
  by_outcome-Returns p e d (some (unknown why)) at = by_search-Returns p e d (find_commit e) at
  by_outcome-Returns p e d none at = by_search-Returns p e d (find_commit e) at

  -- Reconciliation of a claim on disk returns a report. It reports finalized only on a recorded
  -- commit, or on a found commit where no failure is recorded, and its file-system calls are then
  -- those of finalizing the claim under its token; restored only on a recorded failure, and its calls
  -- are then those of restoring the claim under its token; and where it reports uncertain, its one file-system call writes the reason into the claim's own
  -- sidecar, so no lock and no live entry changes.
  pub reconcile_one-Founded :
      (p : String) (e : Entry) (d : Disk)
      → lookup p d.claimed ≡ some (doc e)
      → (r : Report) × ((reconcile_one sha256 find_commit moment p e d).0 ≡ ok r)
        × Founded p e d r.verdict (reconcile_one sha256 find_commit moment p e d).1
  unfolding reconcile_one
  reconcile_one-Founded p e d at =
      let (r, is) = by_outcome-Returns p e d e.write_outcome at in
      (r, is, by_outcome-Founded p e d r e.write_outcome refl is)
