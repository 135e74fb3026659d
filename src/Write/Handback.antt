-- ===== src/Write/Handback.antt =====
-- tools_write.py: a resolution that a gate of the write refuses gives the entry back.
use data_olympus.Base.{
  if_both, String, true, Option, none, some, lookup, ◌≡◌, refl, ap, ◌∙◌, lookup-put_self,
  lookup-remove_self,
}
use data_olympus.Pending.Records.{Entry, doc, is_pending_id}
use data_olympus.Pending.Disk.{Disk, Result, ok, err}
use data_olympus.Pending.Claim.{Resolved, restore_resolve, as_enqueued}
use data_olympus.Pending.Handling.{restore-restored}
use data_olympus.Write.Answers.{
  Rejection, Ending, committed, rejected as ends_rejected, demoted, path_lock_busy,
  write_context_unavailable, write_outcome_unknown, raised,
}
use data_olympus.Write.Commit.{commit_in_worktree}
use data_olympus.Write.Landed.{commit_in_worktree-Ended}
use data_olympus.Write.Decision.{
  Decision, decides_approve, decides_edit, decides_reject, decides_other, ResolveRequest,
  ResolveChecks, edited_text_too_large, refused_by_gate, ResolveEnd, resolves, Desk,
}
use data_olympus.Write.Resolve.{
  resolve_pending, decide, approve_entry, reject_entry, reject_end, claim_and_write,
  write_claimed_entry, write_request, write_end, noted_disk, recorded_disk, fresh_claim, scanned,
  with_capture_reattached, emit_audit, is_too_large, tell, restore, refused_end,
  is_already_resolved, is_claim_fenced,
}
use data_olympus.Write.Claimed.{Holds, noted_disk-Holds, takes, without, resolved_of}
use data_olympus.Write.Kept.{open_Holds}

module _ (k : ResolveChecks) (r : ResolveRequest) (v : Desk) (e : Entry) where
  -- the entry is live as it was enqueued and claimed no more, under the same locks, and the worktree
  -- is as it was, with a new recorder
  abbrev pub HandedBack : Desk → Type 0
  HandedBack v' =
      (lookup r.pending_id v'.disk.live ≡ some (doc (as_enqueued e)))
      × (lookup r.pending_id v'.disk.claimed ≡ none)
      × (v'.disk.locks ≡ v.disk.locks)
      × (v'.tree ≡ fresh_claim v.tree)

  abbrev Back : Desk × ResolveEnd → Type 0
  Back (v', end) = (why : Rejection) → end ≡ resolves (refused_by_gate why) → HandedBack v'

  module _ (c : Resolved) (fits : c.claim_token ≡ k.token) where
    restored_Back :
        (v' : Desk)
        → Holds r.pending_id k.token e (without k r.pending_id none v.disk) v'.disk
        → v'.tree ≡ fresh_claim v.tree
        → HandedBack (restore k r c v')
    restored_Back v' h same =
        rw (fits, restore-restored r.pending_id k.token k.now v'.disk e v'.disk h.entry h.at h.owns)
          (
            lookup-put_self r.pending_id (doc (as_enqueued h.entry)) v'.disk.live
                ∙ ap (λ x. some (doc x)) h.same,
            lookup-remove_self r.pending_id v'.disk.claimed,
            h.locks,
            same,
          )

    refused_Back :
        (x : Result (Unit {0})) (why : Rejection) (v' : Desk)
        → HandedBack v'
        → Back (refused_end k r c x (refused_by_gate why) v')
    unfolding emit_audit
    refused_Back (ok u) why v' h = λ _ _. h
    refused_Back (err f) why v' h = if_both Back (is_claim_fenced f) _ _ (λ _ _. h) (λ _ _. h)

    write_end-Back :
        (end : Ending) (v' : Desk)
        → ((why : Rejection) → end ≡ ends_rejected why → HandedBack (restore k r c v'))
        → Back (write_end k r c end v')
    unfolding emit_audit
    write_end-Back (committed sha state override ws) v' h = λ why is. cc
    write_end-Back (ends_rejected why) v' h =
        refused_Back (restore_resolve r.pending_id (some c.claim_token) v'.disk).0 why
          (restore k r c v') (h why refl)
    write_end-Back write_outcome_unknown v' h = λ why is. cc
    write_end-Back demoted v' h = λ why is. cc
    write_end-Back path_lock_busy v' h = λ why is. cc
    write_end-Back write_context_unavailable v' h = λ why is. cc
    write_end-Back raised v' h = λ why is. cc

    write-Back :
        (d : Disk)
        → Holds r.pending_id k.token e (without k r.pending_id none v.disk) d
        → Back (write_claimed_entry k r c (record v { disk = d }))
    unfolding write_claimed_entry
    write-Back d h =
        let before = without k r.pending_id none v.disk in
        let w = commit_in_worktree (write_request k r c) k.site (fresh_claim v.tree) in
        let (_, unrejected) =
          commit_in_worktree-Ended (write_request k r c) k.site (fresh_claim v.tree) refl in
        let after : Desk = record v { tree = w.0; disk = recorded_disk k r c w.0 d } in
        let held = noted_disk-Holds r.pending_id k.token e before k r c refl fits w.0 d h in
        if_both Back k.confidence_ok _ _
          (write_end-Back w.1 after (λ why is.
            restored_Back after
              (open_Holds k r v e c fits w.0.finalized before (noted_disk k r c w.0 d)
                (ap (λ t. t.finalized) (unrejected why is)) held)
              (unrejected why is)))
          (λ why is. cc)

  claim_and_write-Back :
      (text : Option String)
      → is_pending_id r.pending_id ≡ true
      → lookup r.pending_id v.disk.live ≡ some (doc e)
      → Back (claim_and_write k r text v)
  unfolding claim_and_write
  claim_and_write-Back text valid at =
      let taking = takes k r.pending_id text v.disk e valid at in
      rw taking.returns (write-Back (resolved_of k r.pending_id text v.disk e) refl _ taking.holds)

  scanned-Back :
      (o text : Option String)
      → is_pending_id r.pending_id ≡ true
      → lookup r.pending_id v.disk.live ≡ some (doc e)
      → Back (scanned k r o text v)
  scanned-Back none text valid at = claim_and_write-Back text valid at
  scanned-Back (some pattern) text valid at = λ why is. cc

  reject_end-Back : (x : Result (Unit {0})) (v' : Desk) → Back (reject_end k r x v')
  reject_end-Back (ok u) v' = λ why is. cc
  reject_end-Back (err f) v' =
      if_both Back (is_already_resolved f) _ _ (λ why is. cc) (λ why is. cc)

  approve_entry-Back :
      is_pending_id r.pending_id ≡ true
      → lookup r.pending_id v.disk.live ≡ some (doc e)
      → Back (approve_entry k r v)
  unfolding approve_entry
  approve_entry-Back valid at =
      let text = with_capture_reattached k r v.disk in
      if_both Back (is_too_large k r text) (tell k r edited_text_too_large v) _ (λ why is. cc)
        (scanned-Back _ text valid at)

  decide-Back :
      is_pending_id r.pending_id ≡ true
      → lookup r.pending_id v.disk.live ≡ some (doc e)
      → (x : Decision) → Back (decide k r x v)
  unfolding reject_entry
  decide-Back valid at decides_reject = reject_end-Back _ _
  decide-Back valid at decides_other = λ why is. cc
  decide-Back valid at decides_approve = approve_entry-Back valid at
  decide-Back valid at decides_edit = approve_entry-Back valid at

  -- A resolution that a gate of the write refuses gives a readable entry back: the entry is live as it
  -- was enqueued and claimed no more, the locks are as before, and nothing has been written, staged,
  -- committed or queued for a push.
  pub resolve_pending-HandedBack :
      (why : Rejection)
      → is_pending_id r.pending_id ≡ true
      → lookup r.pending_id v.disk.live ≡ some (doc e)
      → (resolve_pending k r v).1 ≡ resolves (refused_by_gate why)
      → HandedBack (resolve_pending k r v).0
  unfolding resolve_pending
  resolve_pending-HandedBack why valid at =
      if_both Back k.encoding_ok _ _ (decide-Back valid at r.decision) (λ why is. cc) why
