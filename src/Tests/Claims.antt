-- ===== src/Tests/Claims.antt =====
-- Runs of the claim's life in the pending queue (pending.py).
use data_olympus.Base.{true, false, none, some, [], ◌∷◌, lookup, put, remove, ◌≡◌, ◌⊎◌, refl}
use data_olympus.Pending.Records.{
  Entry, doc, failed, unknown, is_pending_id, path_lock_busy, queue_full,
}
use data_olympus.Pending.Disk.{
  Disk, apply, run, ok, err, pure, raise, gets, emit, guard, onward, ◌>>=◌, final,
}
use data_olympus.Pending.Ensures.{AllStates}
use data_olympus.Pending.Lock.{path_lock_filename, acquire_lock, names_holder, path_lock}
use data_olympus.Pending.Queue.{size, completes, publish, enqueue, new_entry}
use data_olympus.Pending.Claim.{
  claim, rename_to_claimed, load_sidecar, claim_for_resolve, store_digest, record_write_context,
  record_outcome, outcome_of, finalize_resolve, restore_resolve, as_enqueued,
}
use data_olympus.Pending.Fencing.{Superseded, Refused, superseded_changes_nothing}
use data_olympus.Pending.Survival.{Present, restore-Present}
use data_olympus.Pending.Refusal.{InFlight-refuses}
use data_olympus.Pending.Reconcile.{Search, finds, Report, reconcile_one}
use data_olympus.Pending.Evidence.{Founded, reconcile_one-Founded}
use data_olympus.Pending.Recovered.{with_outcome, failure_undone}
use data_olympus.Pending.System.{effects}
use data_olympus.Tests.Pending.{
  digest, first, second, proposal, both_enqueued, first_claimed, entry, reached, InFlight-first,
}

abbrev pub waiting : Entry
waiting = new_entry first (proposal "a.md") 10

pub first-valid : is_pending_id first ≡ true
unfolding is_pending_id
first-valid = refl

pub lookup-waiting : lookup first both_enqueued.live ≡ some (doc waiting)
unfolding effects enqueue size acquire_lock publish is_pending_id path_lock_filename ◌>>=◌ onward
    pure raise gets emit guard run apply lookup put remove
lookup-waiting = refl

lookup-entry : lookup first first_claimed.claimed ≡ some (doc entry)
unfolding effects enqueue size acquire_lock publish claim_for_resolve claim rename_to_claimed
    load_sidecar store_digest is_pending_id path_lock_filename ◌>>=◌ onward pure raise gets emit
    guard run apply lookup put remove
lookup-entry = refl

abbrev failure : Entry
failure = record entry { write_outcome = some (failed "hook") }

abbrev one_claim : Disk
one_claim = record { live = []; claimed = (first, doc failure) ∷ []; restoring = []; locks = [] }

lookup-failure : lookup first one_claim.claimed ≡ some (doc failure)
unfolding lookup
lookup-failure = refl

abbrev search : Entry → Search
search e = finds false

reconcile_one-Founded_example :
    (r : Report) × ((reconcile_one digest search 99 first failure one_claim).0 ≡ ok r)
    × Founded digest search 99 first failure one_claim r.verdict
        (reconcile_one digest search 99 first failure one_claim).1
reconcile_one-Founded_example =
    reconcile_one-Founded digest search 99 first failure one_claim lookup-failure

-- the claim's token is "t"
superseded : Superseded "x" (lookup first one_claim.claimed)
unfolding lookup
superseded = refl

one_outcome : outcome_of none none (some "why") ≡ some (unknown "why")
unfolding outcome_of
one_outcome = refl

superseded_changes_nothing_example :
    Refused (record_write_context first (some "x") "ref" "pre") one_claim
    × (Refused (record_outcome first (some "x") none none (some "why")) one_claim
        × (Refused (finalize_resolve digest first "a.md" (some "x")) one_claim
            × Refused (restore_resolve first (some "x")) one_claim))
superseded_changes_nothing_example =
    superseded_changes_nothing first "x" one_claim superseded digest "a.md" "ref" "pre" none none
      (some "why") (unknown "why") one_outcome

restore-Present_example :
    AllStates
      (Present first (proposal "a.md"))
      first_claimed
      (restore_resolve first (some "t") first_claimed).1
restore-Present_example = restore-Present first first_claimed entry (some "t") lookup-entry

InFlight-refuses_example :
    ((enqueue 2 digest completes second 14 (proposal "a.md") first_claimed
        ≡ (err path_lock_busy, []))
      ⊎ (enqueue 2 digest completes second 14 (proposal "a.md") first_claimed
          ≡ (err queue_full, [])))
    × (path_lock digest "a.md" "auto-commit:s" 14 (pure true) first_claimed
        ≡ (err path_lock_busy, []))
InFlight-refuses_example =
    InFlight-refuses 2 digest first_claimed first second "auto-commit:s" entry completes 14
      (proposal "a.md") (pure true) reached InFlight-first refl

holder-entry :
    names_holder first (lookup (path_lock_filename digest "a.md") first_claimed.locks) ≡ true
unfolding effects enqueue size acquire_lock publish claim_for_resolve claim rename_to_claimed
    load_sidecar store_digest is_pending_id path_lock_filename ◌>>=◌ onward pure raise gets emit
    guard run apply lookup put remove
holder-entry = refl

failure_undone_example :
    let recorded = final (record_outcome first (some "t") none (some "hook") none) first_claimed in
    let after =
      final (reconcile_one digest search 99 first (with_outcome (failed "hook") entry)) recorded in
    (lookup first recorded.claimed ≡ some (doc (with_outcome (failed "hook") entry)))
    × ((lookup first after.live ≡ some (doc (as_enqueued entry)))
        × ((lookup first after.claimed ≡ none) × (after.locks ≡ first_claimed.locks)))
failure_undone_example =
    failure_undone first "t" first_claimed entry digest search 99 "hook" lookup-entry refl
