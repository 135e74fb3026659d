-- ===== src/Write/Commit.antt =====
-- tools_write.py: `_commit_in_worktree` behind its gates, `_ClaimRecorder`, `_enqueue_after_commit`,
-- and what `kb_resolve_pending_fn` does with the claim afterwards.
use data_olympus.Base.{
  String, Bool, true, false, not, ◌&&◌, ◌||◌, Option, none, some, List, [], ◌∷◌, ◌++◌,
  if◌then◌else◌, ◌==◌,
}
use data_olympus.Write.Answers.{
  WriteRequest, CommitEnd, exits_zero, declines, killed, unobserved, Site, PushState, queued,
  enqueue_failed_recovery_pending, Ending, committed, rejected, demoted, path_lock_busy,
  write_context_unavailable, write_outcome_unknown, raised, Outcome, outcome_committed,
  outcome_failed, outcome_unknown, Tree, ending_of,
}
use data_olympus.Write.Gates.{Gated, pass, stop, gates}

abbrev pub is_some : Option String → Bool
is_some none = false
is_some (some a) = true

module _ (r : WriteRequest) (s : Site) where
  -- `failed` and `unknown` of the recorder, which suppress a failure of the write of the claim
  abbrev pub record_quietly : Outcome → Tree → Tree
  record_quietly o t =
      if r.has_claim_recorder
      then record t {
        last_outcome = some o;
        recorded = if s.outcome_lands then some o else t.recorded;
      }
      else t

  -- `reset_worktree`, its failure suppressed. A file that git does not know stays.
  abbrev pub reset : Tree → Tree
  reset t =
      let known = t.staged || is_some s.current in
      if s.reset_ok
      then record t { dirty = if known then false else t.dirty; staged = false }
      else t

  abbrev pub land : Tree → Tree
  land t = record t { dirty = false; staged = false; commits = t.commits ++ r.postimage ∷ [] }

  abbrev pub land_if : Bool → Tree → Tree
  land_if landed t = if landed then land t else t

  unfoldable pub enqueue_after_commit : String → Tree → Tree × PushState
  enqueue_after_commit sha t =
      if s.enqueue_lands.0 || s.enqueue_lands.1
      then (record t { push_queue = t.push_queue ++ sha ∷ [] }, queued)
      else (t, enqueue_failed_recovery_pending)

  abbrev pub finalize : Tree → Tree
  finalize t = record t {
    finalize_attempted = true;
    finalized = if s.finalize_lands then true else t.finalized;
  }

  abbrev pub publish : String → Option String → List String → Tree → Tree × Ending
  publish sha override warnings t =
      let (t', state) = enqueue_after_commit sha t in (t', committed sha state override warnings)

  -- A commit whose sha is known: its outcome is recorded, which may raise, and the claim consumed.
  unfoldable pub after_commit : String → Option String → List String → Tree → Tree × Ending
  after_commit sha override warnings t =
      let told = record t { last_outcome = some (outcome_committed sha) } in
      let closed = finalize (record told { recorded = some (outcome_committed sha) }) in
      if r.has_claim_recorder
      then if s.outcome_lands then publish sha override warnings closed else (told, raised)
      else publish sha override warnings t

  unfoldable pub after_landing : Option String → List String → Tree → Tree × Ending
  after_landing override warnings t = elim s.head_after [
    | none ↦ (record_quietly outcome_unknown t, write_outcome_unknown)
    | some sha ↦ after_commit sha override warnings t
  ]

  unfoldable pub git_commit : CommitEnd → Option String → List String → Tree → Tree × Ending
  git_commit exits_zero override warnings t = after_landing override warnings (land t)
  git_commit declines override warnings t = (record_quietly outcome_failed (reset t), raised)
  git_commit (killed landed) override warnings t =
      (record_quietly outcome_unknown (reset (land_if landed t)), write_outcome_unknown)
  git_commit (unobserved landed) override warnings t =
      (record_quietly outcome_unknown (reset (land_if landed t)), write_outcome_unknown)

  unfoldable pub write_file : Option String → List String → Tree → Tree × Ending
  write_file override warnings t =
      let written = record t { dirty = true } in
      let committing =
        git_commit s.commit_end override warnings (record written { staged = true }) in
      if not s.write_ok
      then (written, raised)
      else if s.add_ok
      then committing
      else (record_quietly outcome_failed (reset written), raised)

  -- the write context is a precondition of the write
  unfoldable pub context_lands : Bool
  context_lands = not (s.session_ref == "") && not (s.head_sha == "") && s.context_lands

  unfoldable pub write_phase : Option String → List String → Tree → Tree × Ending
  write_phase override warnings t =
      let plain = write_file override warnings t in
      let with_context = write_file override warnings (record t { has_context = true }) in
      if r.has_claim_recorder
      then if context_lands
        then with_context
        else (record_quietly outcome_failed t, write_context_unavailable)
      else plain

  -- `_commit_in_worktree`
  abbrev pub behind_gates : Gated (Option String × List String) → Tree → Tree × Ending
  behind_gates (pass (override, warnings)) t = write_phase override warnings t
  behind_gates (stop e) t = (t, ending_of e)

  unfoldable pub commit_in_worktree : Tree → Tree × Ending
  commit_in_worktree t = behind_gates (gates r s) t

abbrev pub is_failed : Option Outcome → Bool
is_failed none = false
is_failed (some outcome_failed) = true
is_failed (some outcome_unknown) = false
is_failed (some (outcome_committed sha)) = false

-- what `kb_resolve_pending_fn` does with the claim: put the entry back, or leave or consume the claim
unfoldable pub restores : Tree → Ending → Bool
restores t (committed sha state override warnings) = false
restores t (rejected why) = true
restores t write_outcome_unknown = false
restores t demoted = is_failed t.last_outcome
restores t path_lock_busy = is_failed t.last_outcome
restores t write_context_unavailable = is_failed t.last_outcome
restores t raised = is_failed t.last_outcome
