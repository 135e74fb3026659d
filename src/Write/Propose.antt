-- ===== src/Write/Propose.antt =====
-- tools_write.py: `_governed_lane_check` and `kb_propose_edit_fn`.
use data_olympus.Base.{
  String, Bool, true, false, not, ◌&&◌, ◌||◌, Option, none, some, List, [], ◌∷◌, ◌++◌, ltb, leb,
  if◌then◌else◌,
}
use data_olympus.Limiter.{allow}
use data_olympus.Lane.Governed.{Demotion, governed_target, evaluate_governed_lane}
use data_olympus.Pending.Records.{path_lock_busy, queue_full, many, Proposal, Meta, edit}
use data_olympus.Pending.Disk.{run, Result, ok, err}
use data_olympus.Pending.Queue.{enqueue}
use data_olympus.Write.Answers.{
  WriteRequest, Ending, committed, rejected, demoted, path_lock_busy as ends_busy,
  write_context_unavailable, write_outcome_unknown, raised,
}
use data_olympus.Write.Commit.{is_some, commit_in_worktree}
use data_olympus.Write.Request.{
  Contest, no_contest, bad_contest, contests, EditRequest, Checks, Status,
  rejected_invalid_encoding, rejected_invalid_evidence, rejected_invalid_base,
  rejected_path_not_indexable, rejected_path_blocked, rejected_rate_limited,
  rejected_payload_too_large, rejected_path_lock_busy, rejected_pending_queue_full,
  rejected_secret_in_path, rejected_contest, rejected_by_gate, pending_confirmation,
  committed_status, EditEnd, answers, raises, Server,
}

-- the first of the tests that holds
unfoldable pub first_refusal : List (Bool × Status) → Option Status
first_refusal [] = none
first_refusal ((b, status) ∷ tests) =
    let rest = first_refusal tests in if b then some status else rest

abbrev pub contest_status : Contest → String
contest_status no_contest = ""
contest_status (bad_contest status) = status
contest_status (contests ids reason) = ""

abbrev pub is_bad : Contest → Bool
is_bad no_contest = false
is_bad (bad_contest status) = true
is_bad (contests ids reason) = false

abbrev pub is_contest : Contest → Bool
is_contest no_contest = false
is_contest (bad_contest status) = true
is_contest (contests ids reason) = true

abbrev pub name_or : String → Option String → String
name_or s none = s
name_or s (some t) = t

module _ (k : Checks) (r : EditRequest) where
  -- the refusals before the rate limiter, `path` being the canonical path where there is one
  unfoldable pub early_tests : List (Bool × Status)
  early_tests =
      let path = name_or "" (k.normalize r.target_path) in
      (
        is_some (k.secret_in r.target_path),
        rejected_secret_in_path (name_or "" (k.secret_in r.target_path)),
      )
      ∷ (not k.evidence_ok, rejected_invalid_evidence)
      ∷ (is_bad k.contest, rejected_contest (contest_status k.contest))
      ∷ (not k.base_markers_ok, rejected_invalid_base)
      ∷ (not (is_some (k.normalize r.target_path)), rejected_path_not_indexable)
      ∷ (k.blocks path (k.tier_of path), rejected_path_blocked)
      ∷ []

  abbrev pub index_error : Contest → String → Option String
  index_error no_contest path = none
  index_error (bad_contest status) path = none
  index_error (contests ids reason) path = k.contest_index_error ids path

  -- the refusals behind it
  unfoldable pub late_tests : String → List (Bool × Status)
  late_tests path =
      (
        is_some (index_error k.contest path),
        rejected_contest (name_or "" (index_error k.contest path)),
      )
      ∷ (
        ltb 0 k.max_postimage_bytes && ltb k.max_postimage_bytes (k.byte_count r.postimage),
        rejected_payload_too_large,
      )
      ∷ []

  unfoldable pub would_auto_commit : Bool
  would_auto_commit = leb k.confidence_threshold r.confidence && r.can_auto_commit

  abbrev pub is_demotion : Option Demotion → Bool
  is_demotion none = false
  is_demotion (some d) = true

  -- a hard rejection that the commit will make comes before a demotion
  abbrev pub unless_rejected : String → Option Demotion → Option Demotion
  unless_rejected path demotion =
      if is_demotion demotion
        && would_auto_commit
        && (is_some (k.secret_in path)
            || is_some (k.secret_in r.postimage)
            || k.prediction_rejects path r.postimage)
      then none
      else demotion

  -- `_governed_lane_check`
  unfoldable pub governed_lane_check : String → Option Demotion
  governed_lane_check path =
      let verdict =
        evaluate_governed_lane (k.frontmatter r.postimage) (k.injections r.postimage) path k.index
          true k.today in
      let demotion = unless_rejected path verdict.demotion_reason in
      if k.protection_on then demotion else none

  unfoldable pub emit_audit : Status → Server → Server
  emit_audit status v = record v {
    audit = if k.audit_lands then v.audit ++ status ∷ [] else v.audit;
  }

  -- an event and an answer of this status
  abbrev pub tell : Status → Server → Server × EditEnd
  tell status v = (emit_audit status v, answers status)

  abbrev plain_meta : Meta
  plain_meta = record {
    intent = none;
    contradicts = none;
    dispute = false;
    reason = some r.reason;
    agent_identity = some r.agent_identity;
  }

  abbrev contest_meta : Contest → Meta
  contest_meta no_contest = plain_meta
  contest_meta (bad_contest status) = plain_meta
  contest_meta (contests ids reason) = record plain_meta {
    intent = some "contest";
    contradicts = some (many ids);
  }

  unfoldable pub proposal_of : String → Proposal
  unfolding contest_meta
  proposal_of path = record {
    proposal_type = edit;
    target_path = path;
    postimage = r.postimage;
    base_commit = r.base_commit;
    base_blob_sha = r.base_blob_sha;
    target_file_hash = r.target_file_hash;
    meta = contest_meta k.contest;
  }

  abbrev pub parked : Option Demotion → Result String → Server → Server × EditEnd
  parked demotion (ok pid) v = tell (pending_confirmation pid demotion) v
  parked demotion (err path_lock_busy) v = tell rejected_path_lock_busy v
  parked demotion (err queue_full) v = tell rejected_pending_queue_full v
  parked demotion (err _) v = (v, raises)

  -- `_park`
  unfoldable pub park : String → Option Demotion → Server → Server × EditEnd
  park path demotion v =
      let (result, effects) =
        enqueue k.pending_cap k.sha256 k.write_fault k.pending_id k.now (proposal_of path) v.disk in
      parked demotion result (record v { disk = run effects v.disk })

  unfoldable pub write_request : String → WriteRequest
  write_request path = record {
    target_path = path;
    postimage = r.postimage;
    base_commit = some r.base_commit;
    base_blob_sha = r.base_blob_sha;
    target_file_hash = r.target_file_hash;
    hold_path_lock = false;
    secret_scan_override = false;
    governed_target_check = k.protection_on;
    has_claim_recorder = false;
    writing_rules = r.writing_rules;
  }

  abbrev pub written : String → Ending → Server → Server × EditEnd
  written path (committed sha state override warnings) v = tell (committed_status sha state) v
  written path (rejected why) v = tell (rejected_by_gate why) v
  written path demoted v = park path (some governed_target) v
  written path ends_busy v = tell rejected_path_lock_busy v
  written path write_context_unavailable v = (v, raises)
  written path write_outcome_unknown v = (v, raises)
  written path raised v = (v, raises)

  unfoldable pub auto_commit : String → Server → Server × EditEnd
  auto_commit path v =
      let (tree, ending) = commit_in_worktree (write_request path) k.site v.tree in
      written path ending (record v { tree = tree })

  unfoldable pub park_or_commit : String → Server → Server × EditEnd
  park_or_commit path v =
      let demotion = governed_lane_check path in
      let pending = park path demotion v in
      let commit = auto_commit path v in
      if not would_auto_commit || is_demotion demotion || is_contest k.contest
      then pending
      else commit

  abbrev pub refuse_or : Option Status → Server → Server × EditEnd → Server × EditEnd
  refuse_or none v next = next
  refuse_or (some status) v next = tell status v

  unfoldable pub admitted : String → Server → Server × EditEnd
  admitted path v = refuse_or (first_refusal (late_tests path)) v (park_or_commit path v)

  -- the rate limiter counts every proposal that comes so far
  unfoldable pub limited : String → Server → Server × EditEnd
  limited path v =
      let (allowed, limiter) =
        allow k.max_per_hour k.max_per_ip_per_hour k.now (r.remote_addr, r.agent_identity)
          v.limiter in
      let counted = record v { limiter = limiter } in
      let next = admitted path counted in
      if allowed then next else tell rejected_rate_limited counted

  unfoldable pub propose_edit : Server → Server × EditEnd
  propose_edit v =
      let path = name_or "" (k.normalize r.target_path) in
      let next = refuse_or (first_refusal early_tests) v (limited path v) in
      if k.encoding_ok then next else (v, answers rejected_invalid_encoding)
