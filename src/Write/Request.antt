-- ===== src/Write/Request.antt =====
-- tools_write.py: the request of `kb_propose_edit_fn`, what it calls, and its answers.
use data_olympus.Base.{ℕ, String, Bool, Option, List}
use data_olympus.Pending.Disk.{Disk}
use data_olympus.Pending.Queue.{WriteFault}
use data_olympus.Limiter.{Limiter}
use data_olympus.Lane.Governed.{Frontmatter, Index, Demotion}
use data_olympus.Write.Answers.{Mode, Site, PushState, Rejection, Tree}

-- what `_validate_contest` makes of the contest: none is declared, it is bad, or the ids that are
-- contradicted with the reason
pub data Contest : Type 0 where
  no_contest : Contest
  bad_contest : String → Contest
  contests : List String → Option String → Contest

-- The confidence and its threshold are in one unit.
pub record EditRequest : Type 0 where
  pub target_path : String
  pub postimage : String
  pub base_commit : String
  pub base_blob_sha : Option String
  pub target_file_hash : Option String
  pub reason : String
  pub source_session : String
  pub agent_identity : String
  pub confidence : ℕ
  pub remote_addr : String
  pub can_auto_commit : Bool
  pub writing_rules : Option Mode

-- The settings, and the answers of what the handler calls: `encoding_ok`, `evidence_ok` and
-- `base_markers_ok` are the checks of the arguments, `normalize` is none for a path that is not
-- writable, `prediction_rejects` the content validation without the worktree, `pending_id` and `now`
-- the fresh id and the clock.
pub record Checks : Type 0 where
  pub encoding_ok : Bool
  pub evidence_ok : Bool
  pub contest : Contest
  pub base_markers_ok : Bool
  pub secret_in : String → Option String
  pub normalize : String → Option String
  pub tier_of : String → String
  pub blocks : String → String → Bool
  pub contest_index_error : List String → String → Option String
  pub byte_count : String → ℕ
  pub max_postimage_bytes : ℕ
  pub confidence_threshold : ℕ
  pub max_per_hour : ℕ
  pub max_per_ip_per_hour : ℕ
  pub pending_cap : ℕ
  pub protection_on : Bool
  pub frontmatter : String → Option Frontmatter
  pub injections : String → List (String × ℕ)
  pub index : Option Index
  pub today : String
  pub prediction_rejects : String → String → Bool
  pub sha256 : String → String
  pub write_fault : WriteFault
  pub pending_id : String
  pub now : ℕ
  pub site : Site
  pub audit_lands : Bool

-- the status of an answer, with the ids that the answer and its audit event name
pub data Status : Type 0 where
  rejected_invalid_encoding rejected_invalid_evidence rejected_invalid_base : Status
  rejected_path_not_indexable rejected_path_blocked rejected_rate_limited : Status
  rejected_payload_too_large rejected_path_lock_busy rejected_pending_queue_full : Status
  rejected_secret_in_path rejected_contest : String → Status
  rejected_by_gate : Rejection → Status
  pending_confirmation : String → Option Demotion → Status
  committed_status : String → PushState → Status

-- it answers, or an exception of a callee goes on to the caller
pub data EditEnd : Type 0 where
  answers : Status → EditEnd
  raises : EditEnd

-- the statuses of the audit events stand for the events
pub record Server : Type 0 where
  pub limiter : Limiter
  pub disk : Disk
  pub tree : Tree
  pub audit : List Status
