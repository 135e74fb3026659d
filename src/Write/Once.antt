-- ===== src/Write/Once.antt =====
-- tools_write.py: a proposal is resolved into a commit at most once.
use data_olympus.Base.{
  if_both, String, Bool, true, false, Option, none, some, [], lookup, ◌≡◌, ◌≢◌, refl, ap, ◌∙◌,
  arith, lookup-remove_self, if◌then◌else◌,
}
use data_olympus.Pending.Records.{Entry, not_found}
use data_olympus.Pending.Disk.{Disk, run, Result, ok, err, pure, gets, guard, onward, ◌>>=◌, final}
use data_olympus.Pending.Claim.{Resolved, claim, reject, claim_for_resolve, restore_resolve}
use data_olympus.Write.Answers.{
  Ending, committed, rejected, demoted, path_lock_busy, write_context_unavailable,
  write_outcome_unknown, raised,
}
use data_olympus.Write.Commit.{commit_in_worktree, restores}
use data_olympus.Write.Outcomes.{commit_in_worktree-restores}
use data_olympus.Write.Decision.{
  Decision, decides_approve, decides_edit, decides_reject, decides_other, ResolveRequest,
  ResolveChecks, refused_by_gate, ResolveEnd, raises, Desk,
}
use data_olympus.Write.Resolve.{
  resolve_pending, decide, approve_entry, reject_entry, reject_end, claim_and_write, claim_end,
  write_claimed_entry, write_request, write_end, finalize_call, is_already_resolved,
  is_claim_fenced, noted_disk, recorded_disk, fresh_claim, scanned, restore, refused_end,
  emit_audit,
}
use data_olympus.Pending.Steady.{finalize_resolve-IsSteady}
use data_olympus.Write.Claimed.{Holds, noted_disk-Holds, taken, without, claiming}

-- A call that finds no live entry changes neither the queue nor the branch.
module _ (k : ResolveChecks) (r : ResolveRequest) (v : Desk)
    (absent : lookup r.pending_id v.disk.live ≡ none) where
  abbrev Still : Desk × ResolveEnd → Type 0
  Still (v', e) = (v'.tree ≡ v.tree) × (v'.disk ≡ v.disk)

  claims_nothing :
      (text : Option String)
      → claim_for_resolve k.sha256 r.pending_id text k.token k.now v.disk ≡ (err not_found, [])
  unfolding claim_for_resolve claim ◌>>=◌ onward gets guard run
  claims_nothing text = ground (arith, absent)

  rejects_nothing : reject k.sha256 r.pending_id k.token k.now v.disk ≡ (err not_found, [])
  unfolding reject claim ◌>>=◌ onward gets guard run
  rejects_nothing = ground (arith, absent)

  claim_and_write-Still : (text : Option String) → Still (claim_and_write k r text v)
  unfolding claim_and_write run
  claim_and_write-Still text = rw (claims_nothing text) (refl, refl)

  scanned-Still : (o text : Option String) → Still (scanned k r o text v)
  unfolding emit_audit
  scanned-Still none text = claim_and_write-Still text
  scanned-Still (some pattern) text = (refl, refl)

  decide-Still : (c : Decision) → Still (decide k r c v)
  unfolding approve_entry reject_entry emit_audit run
  decide-Still decides_reject = rw rejects_nothing (refl, refl)
  decide-Still decides_other = (refl, refl)
  decide-Still decides_approve = if_both Still _ _ _ (refl, refl) (scanned-Still _ _)
  decide-Still decides_edit = if_both Still _ _ _ (refl, refl) (scanned-Still _ _)

  pub resolve_pending-Still : Still (resolve_pending k r v)
  unfolding resolve_pending
  resolve_pending-Still = if_both Still _ _ _ (decide-Still r.decision) (refl, refl)

module _ (k : ResolveChecks) (r : ResolveRequest) (v : Desk) where
  -- where the branch has grown, the entry is no longer live
  abbrev Spent : Desk × ResolveEnd → Type 0
  Spent (v', e) = v'.tree.commits ≢ v.tree.commits → lookup r.pending_id v'.disk.live ≡ none

  module _ (c : Resolved) where
    finalize-live : (b : Bool) (d : Disk) → (final (finalize_call k r c b) d).live ≡ d.live
    unfolding finalize_call pure run
    finalize-live true d =
        finalize_resolve-IsSteady k.sha256 r.pending_id c.proposal.target_path (some c.claim_token)
          d
    finalize-live false d = refl

    raise_after-Spent :
        (v' : Desk) (b : Bool)
        → lookup r.pending_id v'.disk.live ≡ none
        → (b ≡ true → v'.tree.commits ≡ v.tree.commits)
        → Spent (if b then restore k r c v' else v', raises)
    raise_after-Spent v' true gone back grown = absurd (grown (back refl))
    raise_after-Spent v' false gone back grown = gone

    -- the entry is not live, and a write that has grown the branch does not put it back
    write_end-Spent :
        (e : Ending) (v' : Desk)
        → lookup r.pending_id v'.disk.live ≡ none
        → (restores v'.tree e ≡ true → v'.tree.commits ≡ v.tree.commits)
        → Spent (write_end k r c e v')
    unfolding emit_audit restores
    write_end-Spent (committed sha state override warnings) v' gone back = λ grown.
        let Gone : Disk → Type 0 = λ d. lookup r.pending_id d.live ≡ none in
        if_both Gone v'.tree.finalize_attempted _ _ gone (rw (finalize-live true v'.disk) gone)
    write_end-Spent (rejected why) v' gone back =
        refused (restore_resolve r.pending_id (some c.claim_token) v'.disk).0
      where
        P : Desk × ResolveEnd → Type 0
        P = Spent

        refused :
            (x : Result (Unit {0}))
            → P (refused_end k r c x (refused_by_gate why) (restore k r c v'))
        refused (ok u) = λ grown. absurd (grown (back refl))
        refused (err f) =
            if_both P (is_claim_fenced f) _ _ (λ grown. absurd (grown (back refl)))
              (λ grown. absurd (grown (back refl)))
    write_end-Spent write_outcome_unknown v' gone back = λ grown. gone
    write_end-Spent demoted v' gone back = raise_after-Spent v' _ gone back
    write_end-Spent path_lock_busy v' gone back = raise_after-Spent v' _ gone back
    write_end-Spent write_context_unavailable v' gone back = raise_after-Spent v' _ gone back
    write_end-Spent raised v' gone back = raise_after-Spent v' _ gone back

    write-Spent :
        (e : Entry) (before d : Disk)
        → c.claim_token ≡ k.token
        → lookup r.pending_id before.live ≡ none
        → Holds r.pending_id k.token e before d
        → Spent (write_claimed_entry k r c (record v { disk = d }))
    unfolding write_claimed_entry
    write-Spent e before d fits gone h =
        let tree = (commit_in_worktree (write_request k r c) k.site (fresh_claim v.tree)).0 in
        let held = noted_disk-Holds r.pending_id k.token e before k r c refl fits tree d h in
        let gone' : lookup r.pending_id (recorded_disk k r c tree d).live ≡ none =
          ap (lookup r.pending_id)
            (finalize-live tree.finalized (noted_disk k r c tree d) ∙ held.live)
          ∙ gone in
        if_both Spent k.confidence_ok _ _
          (write_end-Spent (commit_in_worktree (write_request k r c) k.site (fresh_claim v.tree)).1
            (record v { tree = tree; disk = recorded_disk k r c tree d }) gone'
            (commit_in_worktree-restores (write_request k r c) k.site (fresh_claim v.tree) refl))
          (λ grown. absurd (grown refl))

  claim_end-Spent :
      (x : Result Resolved) (d : Disk)
      → ((c : Resolved) → x ≡ ok c → Spent (write_claimed_entry k r c (record v { disk = d })))
      → Spent (claim_end k r x (record v { disk = d }))
  unfolding emit_audit
  claim_end-Spent (ok c) d h = h c refl
  claim_end-Spent (err f) d h =
      if_both Spent (is_already_resolved f) _ _ (λ grown. absurd (grown refl))
        (λ grown. absurd (grown refl))

  claim_and_write-Spent : (text : Option String) → Spent (claim_and_write k r text v)
  unfolding claim_and_write
  claim_and_write-Spent text =
      claim_end-Spent (claiming k r.pending_id text v.disk v.disk).0 _ λ c is.
        let (e, takes, same) = taken k r.pending_id text v.disk c is in
        write-Spent c e (without k r.pending_id text v.disk) _ (ap (λ x. x.claim_token) same)
          (lookup-remove_self r.pending_id v.disk.live) takes.holds

  reject_end-Spent :
      (x : Result (Unit {0})) (d : Disk) → Spent (reject_end k r x (record v { disk = d }))
  unfolding emit_audit
  reject_end-Spent (ok u) d = λ grown. absurd (grown refl)
  reject_end-Spent (err f) d =
      if_both Spent (is_already_resolved f) _ _ (λ grown. absurd (grown refl))
        (λ grown. absurd (grown refl))

  scanned-Spent : (o text : Option String) → Spent (scanned k r o text v)
  unfolding emit_audit
  scanned-Spent none text = claim_and_write-Spent text
  scanned-Spent (some pattern) text = λ grown. absurd (grown refl)

  decide-Spent : (c : Decision) → Spent (decide k r c v)
  unfolding approve_entry reject_entry emit_audit
  decide-Spent decides_reject = reject_end-Spent _ _
  decide-Spent decides_other = λ grown. absurd (grown refl)
  decide-Spent decides_approve =
      if_both Spent _ _ _ (λ grown. absurd (grown refl)) (scanned-Spent _ _)
  decide-Spent decides_edit = if_both Spent _ _ _ (λ grown. absurd (grown refl)) (scanned-Spent _ _)

  -- A proposal is committed at most once: after a resolution that has added to the branch, whatever
  -- git and the file system did in it and however it ended, any further resolution of the same id
  -- changes neither the pending queue nor the worktree, its branch and its push queue.
  pub resolve_pending_once :
      (k' : ResolveChecks) (r' : ResolveRequest)
      → r'.pending_id ≡ r.pending_id
      → (resolve_pending k r v).0.tree.commits ≢ v.tree.commits
      → let after = (resolve_pending k r v).0 in
        ((resolve_pending k' r' after).0.tree ≡ after.tree)
        × ((resolve_pending k' r' after).0.disk ≡ after.disk)
  resolve_pending_once k' r' same grown =
      resolve_pending-Still k' r' (resolve_pending k r v).0 (rw same (gone grown))
    where
      gone : Spent (resolve_pending k r v)
      gone =
          unfold resolve_pending in
          if_both Spent k.encoding_ok _ _ (decide-Spent r.decision) (λ grown. absurd (grown refl))
