-- ===== src/Write/Resolve.antt =====
-- tools_write.py: `_with_capture_reattached` and `kb_resolve_pending_fn`, with the calls by which
-- `_ClaimRecorder` writes to the claim. No other caller comes between the calls of one resolution.
use data_olympus.Base.{
  String, Bool, true, false, ◌&&◌, Option, none, some, [], ◌∷◌, ◌++◌, ltb, if◌then◌else◌, ◌==◌,
}
use data_olympus.Pending.Records.{
  Entry, ProposalType, memory, edit, Fault, already_resolved as was_resolved, claim_fenced,
}
use data_olympus.Pending.Disk.{Disk, run, Result, ok, err, Exec, pure, final}
use data_olympus.Pending.Queue.{get}
use data_olympus.Pending.Claim.{
  Resolved, reject, claim_for_resolve, record_write_context, record_outcome, finalize_resolve,
  restore_resolve,
}
use data_olympus.Write.Answers.{
  WriteRequest, Ending, committed, rejected as ends_rejected, demoted, path_lock_busy,
  write_context_unavailable, write_outcome_unknown, raised, Outcome, outcome_committed,
  outcome_failed, outcome_unknown, Tree,
}
use data_olympus.Write.Commit.{commit_in_worktree, is_failed}
use data_olympus.Write.Decision.{
  Decision, decides_approve, decides_edit, decides_reject, decides_other, ResolveRequest,
  ResolveChecks, Resolution, invalid_encoding, already_resolved, rejected, bad_decision,
  edited_text_too_large, secret_in_edit, refused_by_gate, committed_as,
  outcome_unknown_pending_recovery, ResolveEnd, resolves, raises, Desk,
}

abbrev pub is_memory : ProposalType → Bool
is_memory memory = true
is_memory edit = false

-- the exceptions that the handler catches
abbrev pub is_already_resolved : Fault → Bool
is_already_resolved was_resolved = true
is_already_resolved _ = false

abbrev pub is_claim_fenced : Fault → Bool
is_claim_fenced claim_fenced = true
is_claim_fenced _ = false

-- a new recorder
abbrev pub fresh_claim : Tree → Tree
fresh_claim t = record t {
  has_context = false;
  last_outcome = none;
  recorded = none;
  finalize_attempted = false;
  finalized = false;
}

abbrev pub text_or : String → Option String → String
text_or s none = s
text_or s (some t) = t

module _ (k : ResolveChecks) (r : ResolveRequest) where
  -- a plain approval of a text that already has its envelope stays one
  abbrev pub attach : String → String → Option String
  attach original envelope =
      let attached = k.reattach (text_or original r.edited_text) envelope original in
      elim r.edited_text [
        | none ↦ if attached == original then none else some attached
        | some text ↦ some attached
      ]

  abbrev pub reattached : Result Entry → Option String
  reattached (err c) = r.edited_text
  reattached (ok e) =
      if is_memory e.proposal_type
      then elim (k.envelope e) [ none ↦ r.edited_text | some v ↦ attach e.postimage v ]
      else r.edited_text

  -- `_with_capture_reattached`
  unfoldable pub with_capture_reattached : Disk → Option String
  with_capture_reattached d = reattached (get r.pending_id d).0

  unfoldable pub emit_audit : Resolution → Desk → Desk
  emit_audit status v = record v {
    audit = if k.audit_lands then v.audit ++ status ∷ [] else v.audit;
  }

  -- an event and an answer of this status
  abbrev pub tell : Resolution → Desk → Desk × ResolveEnd
  tell status v = (emit_audit status v, resolves status)

  abbrev pub reject_end : Result (Unit {0}) → Desk → Desk × ResolveEnd
  reject_end (ok u) v = tell rejected v
  reject_end (err c) v = if is_already_resolved c then tell already_resolved v else (v, raises)

  unfoldable pub reject_entry : Desk → Desk × ResolveEnd
  reject_entry v =
      let (result, effects) = reject k.sha256 r.pending_id k.token k.now v.disk in
      reject_end result (record v { disk = run effects v.disk })

  -- The calls of the recorder on the claim, those that took effect, in their order.
  module _ (c : Resolved) where
    unfoldable pub context_call : Bool → Exec (Unit {0})
    context_call true =
        record_write_context r.pending_id (some c.claim_token) k.site.session_ref k.site.head_sha
    context_call false = pure tt

    unfoldable pub outcome_call : Option Outcome → Exec (Unit {0})
    outcome_call none = pure tt
    outcome_call (some (outcome_committed sha)) =
        record_outcome r.pending_id (some c.claim_token) (some sha) none none
    outcome_call (some outcome_failed) =
        record_outcome r.pending_id (some c.claim_token) none (some k.reason) none
    outcome_call (some outcome_unknown) =
        record_outcome r.pending_id (some c.claim_token) none none (some k.reason)

    unfoldable pub finalize_call : Bool → Exec (Unit {0})
    finalize_call true =
        finalize_resolve k.sha256 r.pending_id c.proposal.target_path (some c.claim_token)
    finalize_call false = pure tt

    abbrev pub noted_disk : Tree → Disk → Disk
    noted_disk t d = final (outcome_call t.recorded) (final (context_call t.has_context) d)

    abbrev pub recorded_disk : Tree → Disk → Disk
    recorded_disk t d = final (finalize_call t.finalized) (noted_disk t d)

    unfoldable pub write_request : WriteRequest
    write_request = record {
      target_path = c.proposal.target_path;
      postimage = c.proposal.postimage;
      base_commit = some c.proposal.base_commit;
      base_blob_sha = c.proposal.base_blob_sha;
      target_file_hash = c.proposal.target_file_hash;
      hold_path_lock = true;
      secret_scan_override = r.override_secret_scan;
      governed_target_check = false;
      has_claim_recorder = true;
      writing_rules = r.writing_rules;
    }

    abbrev pub restore : Desk → Desk
    restore v = record v { disk = final (restore_resolve r.pending_id (some c.claim_token)) v.disk }

    -- a claim that is fenced is left to its successor
    abbrev pub refused_end : Result (Unit {0}) → Resolution → Desk → Desk × ResolveEnd
    refused_end (ok u) status v = tell status v
    refused_end (err c) status v = if is_claim_fenced c then tell status v else (v, raises)

    -- an exception of the write: the entry is put back after a write that recorded its failure
    abbrev pub raise_after : Desk → Desk × ResolveEnd
    raise_after v = (if is_failed v.tree.last_outcome then restore v else v, raises)

    abbrev pub write_end : Ending → Desk → Desk × ResolveEnd
    write_end (committed sha state override warnings) v = tell (committed_as sha state) (record v {
      disk = if v.tree.finalize_attempted then v.disk else final (finalize_call true) v.disk;
    })
    write_end (ends_rejected why) v =
        refused_end (restore_resolve r.pending_id (some c.claim_token) v.disk).0
          (refused_by_gate why) (restore v)
    write_end write_outcome_unknown v = (emit_audit outcome_unknown_pending_recovery v, raises)
    write_end demoted v = raise_after v
    write_end path_lock_busy v = raise_after v
    write_end write_context_unavailable v = raise_after v
    write_end raised v = raise_after v

    unfoldable pub write_claimed_entry : Desk → Desk × ResolveEnd
    write_claimed_entry v =
        let (tree, ending) = commit_in_worktree write_request k.site (fresh_claim v.tree) in
        let after = record v { tree = tree; disk = recorded_disk tree v.disk } in
        if k.confidence_ok then write_end ending after else (v, raises)

  abbrev pub claim_end : Result Resolved → Desk → Desk × ResolveEnd
  claim_end (ok c) v = write_claimed_entry c v
  claim_end (err c) v = if is_already_resolved c then tell already_resolved v else (v, raises)

  unfoldable pub claim_and_write : Option String → Desk → Desk × ResolveEnd
  claim_and_write text v =
      let (result, effects) = claim_for_resolve k.sha256 r.pending_id text k.token k.now v.disk in
      claim_end result (record v { disk = run effects v.disk })

  abbrev pub is_too_large : Option String → Bool
  is_too_large none = false
  is_too_large (some text) =
      ltb 0 k.max_postimage_bytes && ltb k.max_postimage_bytes (k.byte_count text)

  abbrev pub secret_of : Option String → Option String
  secret_of none = none
  secret_of (some text) = if r.override_secret_scan then none else k.secret_in text

  abbrev pub scanned : Option String → Option String → Desk → Desk × ResolveEnd
  scanned none text v = claim_and_write text v
  scanned (some pattern) text v = tell (secret_in_edit pattern) v

  unfoldable pub approve_entry : Desk → Desk × ResolveEnd
  approve_entry v =
      let text = with_capture_reattached v.disk in
      let next = scanned (secret_of text) text v in
      if is_too_large text then tell edited_text_too_large v else next

  abbrev pub decide : Decision → Desk → Desk × ResolveEnd
  decide decides_reject v = reject_entry v
  decide decides_other v = tell bad_decision v
  decide decides_approve v = approve_entry v
  decide decides_edit v = approve_entry v

  -- `kb_resolve_pending_fn`
  unfoldable pub resolve_pending : Desk → Desk × ResolveEnd
  resolve_pending v =
      let next = decide r.decision v in
      if k.encoding_ok then next else (v, resolves invalid_encoding)
