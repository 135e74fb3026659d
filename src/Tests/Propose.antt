-- ===== src/Tests/Propose.antt =====
-- Runs of the proposal of an edit (tools_write.py).
use data_olympus.Base.{
  ℕ, String, Bool, true, false, Option, none, some, List, [], ◌∷◌, ◌++◌, ◌≡◌, refl,
}
use data_olympus.Pending.Queue.{strip, WriteFault, completes}
use data_olympus.Pending.Disk.{Disk}
use data_olympus.Limiter.{fresh as no_calls, allow, prune, store}
use data_olympus.Gate.Cas.{
  is_enforceable_base_commit, current_blob, check_commit, check_file_hash, check_cas,
}
use data_olympus.Write.Answers.{queued}
use data_olympus.Write.Gates.{
  gates, cas_enforceable, cas_result, writing_rule_gate, rule_findings, backstop,
}
use data_olympus.Write.Commit.{
  commit_in_worktree, write_phase, context_lands, write_file, git_commit, after_landing,
  after_commit, enqueue_after_commit,
}
use data_olympus.Write.Request.{
  Contest, no_contest, contests, EditRequest, Checks, committed_status, pending_confirmation,
  answers, Server,
}
use data_olympus.Write.Propose.{
  propose_edit, first_refusal, early_tests, late_tests, limited, admitted, park_or_commit,
  auto_commit, written, write_request, would_auto_commit, is_demotion, governed_lane_check,
  emit_audit,
}
use data_olympus.Write.Audited.{propose_edit-audit}
use data_olympus.Write.Authorised.{path, IsDirect, IsGated, WasAllowed, propose_edit-IsGated}
use data_olympus.Tests.Write.{site, fresh}

abbrev edit_request : EditRequest
edit_request = record {
  target_path = "a.md";
  postimage = "text";
  base_commit = "";
  base_blob_sha = none;
  target_file_hash = none;
  reason = "typo";
  source_session = "s";
  agent_identity = "ada";
  confidence = 90;
  remote_addr = "10.0.0.1";
  can_auto_commit = true;
  writing_rules = none;
}

abbrev checks_of : Contest → Checks
checks_of contest = record {
  encoding_ok = true;
  evidence_ok = true;
  contest = contest;
  base_markers_ok = true;
  secret_in = λ s. none;
  normalize = λ p. some p;
  tier_of = λ p. "T3";
  blocks = λ p tier. false;
  contest_index_error = λ ids p. none;
  byte_count = λ s. 4;
  max_postimage_bytes = 100;
  confidence_threshold = 80;
  max_per_hour = 5;
  max_per_ip_per_hour = 0;
  pending_cap = 0;
  protection_on = false;
  frontmatter = λ s. none;
  injections = λ s. [];
  index = none;
  today = "2026-01-01";
  prediction_rejects = λ p s. false;
  sha256 = λ s. s;
  write_fault = completes;
  pending_id = "p1";
  now = 10;
  site = record site { path_lock_free = true };
  audit_lands = true;
}

abbrev checks : Checks
checks = checks_of no_contest

abbrev server : Server
server = record {
  limiter = no_calls;
  disk = record { live = []; claimed = []; restoring = []; locks = [] };
  tree = fresh;
  audit = [];
}

commits_alone : (propose_edit checks edit_request server).1 ≡ answers (committed_status "h1" queued)
unfolding propose_edit first_refusal early_tests limited allow prune store admitted late_tests
    park_or_commit would_auto_commit governed_lane_check emit_audit auto_commit write_request
    commit_in_worktree gates cas_enforceable cas_result check_cas check_file_hash check_commit
    current_blob is_enforceable_base_commit writing_rule_gate rule_findings backstop write_phase
    context_lands write_file git_commit after_landing after_commit enqueue_after_commit strip
commits_alone = refl

propose_edit-audit_example :
    (propose_edit checks edit_request server).0.audit ≡ committed_status "h1" queued ∷ []
propose_edit-audit_example =
    propose_edit-audit checks edit_request refl server (committed_status "h1" queued) commits_alone

propose_edit-IsGated_example :
    (true ≡ true)
    × (first_refusal (early_tests checks edit_request) ≡ none)
    × WasAllowed checks edit_request "h1" queued server
    × (first_refusal (late_tests checks edit_request (path checks edit_request "h1" queued)) ≡ none)
    × IsDirect checks edit_request "h1" queued
    × IsGated checks edit_request "h1" queued fresh (propose_edit checks edit_request server).0.tree
propose_edit-IsGated_example =
    propose_edit-IsGated checks edit_request "h1" queued server commits_alone

-- a contest is parked
parks :
    (propose_edit (checks_of (contests ("d1" ∷ []) none)) edit_request server).1
    ≡ answers (pending_confirmation "p1" none)
unfolding propose_edit first_refusal early_tests limited allow prune store admitted late_tests
    park_or_commit would_auto_commit governed_lane_check emit_audit data_olympus.Write.Propose.park
    data_olympus.Write.Propose.proposal_of data_olympus.Pending.Disk.run
    data_olympus.Pending.Disk.apply data_olympus.Pending.Disk.emit data_olympus.Pending.Disk.gets
    data_olympus.Pending.Disk.guard data_olympus.Pending.Disk.pure data_olympus.Pending.Disk.raise
    data_olympus.Pending.Disk.onward data_olympus.Pending.Disk.◌>>=◌
    data_olympus.Pending.Lock.acquire_lock data_olympus.Pending.Lock.path_lock_filename
    data_olympus.Pending.Queue.enqueue data_olympus.Pending.Queue.publish
    data_olympus.Pending.Queue.as_id_list data_olympus.Pending.Queue.size data_olympus.Base.lookup
    data_olympus.Base.put strip
parks = refl
