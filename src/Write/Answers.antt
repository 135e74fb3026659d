-- ===== src/Write/Answers.antt =====
-- tools_write.py: the request of `_commit_in_worktree`, what is outside of it, and its endings.
use data_olympus.Base.{String, Bool, Option, List}
use data_olympus.Lane.Governed.{Frontmatter}

pub data Mode : Type 0 where
  off_mode warn_mode enforce_mode : Mode

pub record WriteRequest : Type 0 where
  pub target_path : String
  pub postimage : String
  pub base_commit : Option String
  pub base_blob_sha : Option String
  pub target_file_hash : Option String
  pub hold_path_lock : Bool
  pub secret_scan_override : Bool
  pub governed_target_check : Bool
  pub has_claim_recorder : Bool
  pub writing_rules : Option Mode

-- How `git commit` ends: it exits with 0; it declines with a positive code; it is killed by a
-- signal, or its end is not observed. In the last two the commit may have landed.
pub data CommitEnd : Type 0 where
  exits_zero declines : CommitEnd
  killed unobserved : Bool → CommitEnd

-- The answers of the file system, of git, of the scans and of the other components in one run.
-- `current` is the target on the refreshed base, where it is a file, and `decodable` whether it is
-- UTF-8. Where `worktree_ok` is false, or `message` or `added_findings` is none, the call raises.
-- A write that fails may leave a part of the file. `enqueue_lands` are the two
-- attempts.
pub record Site : Type 0 where
  pub path_lock_free : Bool
  pub worktree_ok : Bool
  pub refresh_ok : Bool
  pub message : Option String
  pub full_path : Option String
  pub current : Option String
  pub decodable : Bool
  pub blob_sha : String → String
  pub sha256 : String → String
  pub commit_exists : String → Bool
  pub git_blob_at : String → String → String
  pub secret_in : String → Option String
  pub excludes : String → Bool
  pub added_findings : String → String → Option (List String)
  pub validation_errors : String → List String
  pub frontmatter : String → Option Frontmatter
  pub today : String
  pub is_inbox : String → Bool
  pub session_ref : String
  pub head_sha : String
  pub context_lands : Bool
  pub outcome_lands : Bool
  pub finalize_lands : Bool
  pub write_ok : Bool
  pub add_ok : Bool
  pub commit_end : CommitEnd
  pub head_after : Option String
  pub reset_ok : Bool
  pub enqueue_lands : Bool × Bool

pub data Rejection : Type 0 where
  stale_base symlink_escape writing_rule invalid_document : Rejection
  secret_detected : String → Rejection

pub data PushState : Type 0 where
  queued enqueue_failed_recovery_pending : PushState

-- what a gate raises
pub data Refusal : Type 0 where
  refuse : Rejection → Refusal
  demote busy fault : Refusal

-- how `_commit_in_worktree` ends: it returns, or raises one of these
pub data Ending : Type 0 where
  committed : String → PushState → Option String → List String → Ending
  rejected : Rejection → Ending
  demoted path_lock_busy write_context_unavailable write_outcome_unknown raised : Ending

pub data Outcome : Type 0 where
  outcome_committed : String → Outcome
  outcome_failed outcome_unknown : Outcome

-- The session's worktree with its branch, the claim of the pending entry and the push queue. A
-- commit is the content that it puts at the target. `last_outcome` is in memory, `recorded` is in
-- the claim.
pub record Tree : Type 0 where
  pub dirty : Bool
  pub staged : Bool
  pub commits : List String
  pub has_context : Bool
  pub last_outcome : Option Outcome
  pub recorded : Option Outcome
  pub finalize_attempted : Bool
  pub finalized : Bool
  pub push_queue : List String

abbrev pub ending_of : Refusal → Ending
ending_of (refuse why) = rejected why
ending_of demote = demoted
ending_of busy = path_lock_busy
ending_of fault = raised
