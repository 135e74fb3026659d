-- ===== src/Write/Kept.antt =====
-- tools_write.py: a resolution keeps the proposal, or its text is committed.
use data_olympus.Base.{
  if_both, String, Bool, true, false, Bool-cases, Option, none, some, List, [], ◌∷◌, ◌++◌, lookup,
  ◌≡◌, ◌≢◌, ◌⊎◌, inl, inr, refl, sym, ap, ◌∙◌, if◌then◌else◌, lookup-put_self,
}
use data_olympus.Pending.Records.{Entry, doc, is_pending_id}
use data_olympus.Pending.Disk.{Disk, run, Result, ok, err, pure, final}
use data_olympus.Pending.Claim.{Resolved, restore_resolve, as_enqueued, edited}
use data_olympus.Pending.Survival.{Present}
use data_olympus.Pending.Handling.{restore-restored}
use data_olympus.Write.Answers.{
  Ending, committed, rejected as ends_rejected, demoted, path_lock_busy, write_context_unavailable,
  write_outcome_unknown, raised, Tree,
}
use data_olympus.Write.Commit.{commit_in_worktree}
use data_olympus.Write.Passed.{commit_in_worktree-Passed}
use data_olympus.Write.Landed.{commit_in_worktree-Ended}
use data_olympus.Write.Decision.{
  Decision, decides_approve, decides_edit, decides_reject, decides_other, ResolveRequest,
  ResolveChecks, Resolution, refused_by_gate, ResolveEnd, raises, Desk,
}
use data_olympus.Write.Resolve.{
  resolve_pending, decide, approve_entry, claim_and_write, write_claimed_entry, write_request,
  write_end, finalize_call, noted_disk, recorded_disk, fresh_claim, scanned,
  with_capture_reattached, emit_audit, restore, refused_end, is_claim_fenced, text_or,
}
use data_olympus.Write.Claimed.{Holds, noted_disk-Holds, takes, without, resolved_of}

module _ (k : ResolveChecks) (r : ResolveRequest) (v : Desk) (e : Entry) where
  -- the text that the call would commit
  abbrev pub approved_text : String
  approved_text = text_or e.postimage (with_capture_reattached k r v.disk)

  -- the proposal is there, or the text is committed
  abbrev pub KeptOrCommitted : String → Desk → Type 0
  KeptOrCommitted text v' =
      Present r.pending_id e.proposal v'.disk ⊎ (v'.tree.commits ≡ v.tree.commits ++ text ∷ [])

  abbrev Good : String → Desk × ResolveEnd → Type 0
  Good text x = KeptOrCommitted text x.0

  module _ (c : Resolved) (fits : c.claim_token ≡ k.token) where
    abbrev own : String
    own = c.proposal.postimage

    held_Present :
        (before d : Disk)
        → Holds r.pending_id k.token e before d
        → Present r.pending_id e.proposal d
    held_Present before d h = (h.entry, inr h.at, ap (λ x. x.proposal) h.same)

    restored_Present :
        (before : Disk) (v' : Desk)
        → Holds r.pending_id k.token e before v'.disk
        → Present r.pending_id e.proposal (restore k r c v').disk
    restored_Present before v' h =
        rw (fits, restore-restored r.pending_id k.token k.now v'.disk e v'.disk h.entry h.at h.owns)
          (
            as_enqueued h.entry,
            inl (lookup-put_self r.pending_id (doc (as_enqueued h.entry)) v'.disk.live),
            ap (λ x. x.proposal) h.same,
          )

    raise_after-Good :
        (b : Bool) (before : Disk) (v' : Desk)
        → Holds r.pending_id k.token e before v'.disk
        → Good own (if b then restore k r c v' else v', raises)
    raise_after-Good true before v' h = inl (restored_Present before v' h)
    raise_after-Good false before v' h = inl (held_Present before v'.disk h)

    if_refused :
        (x : Result (Unit {0})) (status : Resolution) (v' : Desk)
        → KeptOrCommitted own v'
        → Good own (refused_end k r c x status v')
    unfolding emit_audit
    if_refused (ok u) status v' h = h
    if_refused (err f) status v' h = if_both (Good own) (is_claim_fenced f) _ _ h h

    abbrev IsTree : Tree → Desk → Type 0
    IsTree t v' = v'.tree ≡ t

    refused-tree :
        (x : Result (Unit {0})) (status : Resolution) (v' : Desk)
        → (refused_end k r c x status v').0.tree ≡ v'.tree
    unfolding emit_audit
    refused-tree (ok u) status v' = refl
    refused-tree (err f) status v' =
        let P : Desk × ResolveEnd → Type 0 = λ x. x.0.tree ≡ v'.tree in
        if_both P (is_claim_fenced f) _ _ refl refl

    write_end-Good :
        (end : Ending) (before : Disk) (v' : Desk)
        → Holds r.pending_id k.token e before v'.disk
        → ((sha : String) (state : _) (override : Option String) (ws : List String)
            → end ≡ committed sha state override ws
            → v'.tree.commits ≡ v.tree.commits ++ own ∷ [])
        → Good own (write_end k r c end v')
    unfolding emit_audit
    write_end-Good (committed sha state override ws) before v' h grown =
        inr (grown sha state override ws refl)
    write_end-Good (ends_rejected why) before v' h grown =
        if_refused (restore_resolve r.pending_id (some c.claim_token) v'.disk).0
          (refused_by_gate why) (restore k r c v') (inl (restored_Present before v' h))
    write_end-Good write_outcome_unknown before v' h grown = inl (held_Present before v'.disk h)
    write_end-Good demoted before v' h grown = raise_after-Good _ before v' h
    write_end-Good path_lock_busy before v' h grown = raise_after-Good _ before v' h
    write_end-Good write_context_unavailable before v' h grown = raise_after-Good _ before v' h
    write_end-Good raised before v' h grown = raise_after-Good _ before v' h

    -- the branch is that of the write
    write_end-tree : (end : Ending) (v' : Desk) → (write_end k r c end v').0.tree ≡ v'.tree
    unfolding emit_audit
    write_end-tree (committed sha state override ws) v' = refl
    write_end-tree (ends_rejected why) v' =
        refused-tree (restore_resolve r.pending_id (some c.claim_token) v'.disk).0
          (refused_by_gate why) (restore k r c v')
    write_end-tree write_outcome_unknown v' = refl
    write_end-tree demoted v' = if_both (IsTree v'.tree) _ _ _ refl refl
    write_end-tree path_lock_busy v' = if_both (IsTree v'.tree) _ _ _ refl refl
    write_end-tree write_context_unavailable v' = if_both (IsTree v'.tree) _ _ _ refl refl
    write_end-tree raised v' = if_both (IsTree v'.tree) _ _ _ refl refl

    pub open_Holds :
        (b : Bool) (before d : Disk)
        → b ≡ false
        → Holds r.pending_id k.token e before d
        → Holds r.pending_id k.token e before (final (finalize_call k r c b) d)
    unfolding finalize_call pure run
    open_Holds true before d is h = absurd cc
    open_Holds false before d is h = h

    write-Good :
        (before d : Disk)
        → Holds r.pending_id k.token e before d
        → Good own (write_claimed_entry k r c (record v { disk = d }))
    unfolding write_claimed_entry write_request
    write-Good before d h =
        let w = commit_in_worktree (write_request k r c) k.site (fresh_claim v.tree) in
        let (consumed, _) =
          commit_in_worktree-Ended (write_request k r c) k.site (fresh_claim v.tree) refl in
        let after : Desk = record v { tree = w.0; disk = recorded_disk k r c w.0 d } in
        let held = noted_disk-Holds r.pending_id k.token e before k r c refl fits w.0 d h in
        if_both (Good own) k.confidence_ok _ _
          (elim (Bool-cases w.0.finalized) [
            | inl done ↦ inr (ap (λ t. t.commits) (write_end-tree w.1 after) ∙ consumed done)
            | inr unfinished ↦
                write_end-Good w.1 before after
                  (open_Holds w.0.finalized before (noted_disk k r c w.0 d) unfinished held)
                  (λ sha state o ws is.
                    (commit_in_worktree-Passed (write_request k r c) k.site (fresh_claim v.tree) sha
                      state o ws is).1.0)
          ])
          (inl (held_Present before d h))

  -- the text of the claimed proposal
  edited-postimage :
      (text : Option String) → (edited text e.proposal).postimage ≡ text_or e.postimage text
  edited-postimage none = refl
  edited-postimage (some t) = refl

  claim_and_write-Good :
      (text : Option String)
      → is_pending_id r.pending_id ≡ true
      → lookup r.pending_id v.disk.live ≡ some (doc e)
      → Good (text_or e.postimage text) (claim_and_write k r text v)
  unfolding claim_and_write
  claim_and_write-Good text valid at =
      let taking = takes k r.pending_id text v.disk e valid at in
      let c = resolved_of k r.pending_id text v.disk e in
      rw (taking.returns, sym (edited-postimage text))
        (write-Good c refl (without k r.pending_id text v.disk) _ taking.holds)

  scanned-Good :
      (o text : Option String)
      → is_pending_id r.pending_id ≡ true
      → lookup r.pending_id v.disk.live ≡ some (doc e)
      → Good (text_or e.postimage text) (scanned k r o text v)
  unfolding emit_audit
  scanned-Good none text valid at = claim_and_write-Good text valid at
  scanned-Good (some pattern) text valid at = inl (e, inl at, refl)

  decide-Good :
      is_pending_id r.pending_id ≡ true
      → lookup r.pending_id v.disk.live ≡ some (doc e)
      → (x : Decision) → x ≢ decides_reject
      → Good approved_text (decide k r x v)
  unfolding approve_entry emit_audit
  decide-Good valid at decides_reject other = absurd (other refl)
  decide-Good valid at decides_other other = inl (e, inl at, refl)
  decide-Good valid at decides_approve other =
      if_both (Good approved_text) _ _ _ (inl (e, inl at, refl)) (scanned-Good _ _ valid at)
  decide-Good valid at decides_edit other =
      if_both (Good approved_text) _ _ _ (inl (e, inl at, refl)) (scanned-Good _ _ valid at)

  -- An approved or edited proposal is never lost: after the resolution of a readable entry, whatever
  -- git and the file system did in it and however it ended, an entry with this id, live or claimed,
  -- has the same proposal, or the branch has one more commit, of the text that was approved.
  pub resolve_pending_keeps :
      is_pending_id r.pending_id ≡ true
      → lookup r.pending_id v.disk.live ≡ some (doc e)
      → r.decision ≢ decides_reject
      → KeptOrCommitted approved_text (resolve_pending k r v).0
  unfolding resolve_pending emit_audit
  resolve_pending_keeps valid at other =
      if_both (Good approved_text) k.encoding_ok _ _ (decide-Good valid at r.decision other)
        (inl (e, inl at, refl))
