-- ===== src/Tests/Write.antt =====
-- Runs of the write of a document (tools_write.py).
use data_olympus.Base.{true, false, none, some, [], ◌∷◌, ◌≡◌, refl}
use data_olympus.Gate.Cas.{
  is_enforceable_base_commit, current_blob, check_commit, check_file_hash, check_cas,
}
use data_olympus.Write.Answers.{
  WriteRequest, Site, exits_zero, declines, killed, warn_mode, Tree, committed, queued,
}
use data_olympus.Write.Gates.{
  gates, cas_enforceable, cas_result, writing_rule_gate, rule_findings, backstop,
}
use data_olympus.Write.Commit.{
  commit_in_worktree, write_phase, context_lands, write_file, git_commit, after_landing,
  after_commit, enqueue_after_commit, restores,
}
use data_olympus.Write.Outcomes.{TruthOf, commit_in_worktree-TruthOf}
use data_olympus.Write.Passed.{Passed, IsWritten, commit_in_worktree-Passed}
use data_olympus.Write.Leftovers.{commit_in_worktree-staged}

abbrev pub request : WriteRequest
request = record {
  target_path = "a.md";
  postimage = "text";
  base_commit = some "c1";
  base_blob_sha = none;
  target_file_hash = none;
  hold_path_lock = true;
  secret_scan_override = false;
  governed_target_check = true;
  has_claim_recorder = true;
  writing_rules = some warn_mode;
}

abbrev pub site : Site
site = record {
  path_lock_free = false;
  worktree_ok = true;
  refresh_ok = true;
  message = some "edit";
  full_path = some "/w/a.md";
  current = none;
  decodable = true;
  blob_sha = λ s. s;
  sha256 = λ s. s;
  commit_exists = λ c. true;
  git_blob_at = λ c p. "";
  secret_in = λ s. none;
  excludes = λ p. false;
  added_findings = λ pre post. some ("em dash" ∷ []);
  validation_errors = λ s. [];
  frontmatter = λ s. none;
  today = "2026-01-01";
  is_inbox = λ p. false;
  session_ref = "s1";
  head_sha = "h0";
  context_lands = true;
  outcome_lands = true;
  finalize_lands = true;
  write_ok = true;
  add_ok = true;
  commit_end = exits_zero;
  head_after = some "h1";
  reset_ok = true;
  enqueue_lands = (false, true);
}

abbrev pub fresh : Tree
fresh = record {
  dirty = false;
  staged = false;
  commits = [];
  has_context = false;
  last_outcome = none;
  recorded = none;
  finalize_attempted = false;
  finalized = false;
  push_queue = [];
}

returns : (commit_in_worktree request site fresh).1 ≡ committed "h1" queued none ("em dash" ∷ [])
unfolding commit_in_worktree gates cas_enforceable cas_result check_cas check_file_hash check_commit
    current_blob is_enforceable_base_commit writing_rule_gate rule_findings backstop write_phase
    context_lands write_file git_commit after_landing after_commit enqueue_after_commit
    data_olympus.Pending.Queue.strip
returns = refl

commit_in_worktree-Passed_example :
    Passed request site none
    × IsWritten request site "h1" queued fresh (commit_in_worktree request site fresh).0
commit_in_worktree-Passed_example =
    commit_in_worktree-Passed request site fresh "h1" queued none ("em dash" ∷ []) returns

-- git declines the commit
abbrev declining : Site
declining = record site { commit_end = declines }

-- the commit lands and git is killed
abbrev killing : Site
killing = record site { commit_end = killed true }

kept :
    restores
      (commit_in_worktree request killing fresh).0
      (commit_in_worktree request killing fresh).1
    ≡ false
unfolding commit_in_worktree gates cas_enforceable cas_result check_cas check_file_hash check_commit
    current_blob is_enforceable_base_commit writing_rule_gate rule_findings backstop write_phase
    context_lands write_file git_commit restores data_olympus.Pending.Queue.strip
kept = refl

commit_in_worktree-TruthOf_example :
    TruthOf request site fresh
      (commit_in_worktree request site fresh).0.recorded
      (commit_in_worktree request site fresh).0
commit_in_worktree-TruthOf_example = commit_in_worktree-TruthOf request site fresh refl

commit_in_worktree-staged_example : (commit_in_worktree request declining fresh).0.staged ≡ false
commit_in_worktree-staged_example = commit_in_worktree-staged request declining refl fresh refl
