-- ===== src/Write/Decision.antt =====
-- tools_write.py: the request of `kb_resolve_pending_fn`, what it calls, and its answers.
use data_olympus.Base.{ℕ, String, Bool, Option, List}
use data_olympus.Pending.Records.{Entry}
use data_olympus.Pending.Disk.{Disk}
use data_olympus.Write.Answers.{Mode, Site, PushState, Rejection, Tree}

pub data Decision : Type 0 where
  decides_approve decides_edit decides_reject decides_other : Decision

pub record ResolveRequest : Type 0 where
  pub pending_id : String
  pub decision : Decision
  pub edited_text : Option String
  pub override_secret_scan : Bool
  pub writing_rules : Option Mode

-- The settings, and the answers of what the handler calls: `envelope` is `project_capture` of the
-- entry's metadata, `reattach` is `reattach_capture` of a text, an envelope and the original,
-- `confidence_ok` whether `float` takes the recorded confidence, `token` and `now` the fresh token of
-- the claim and the clock, `reason` the text that a recorded failure or doubt has.
pub record ResolveChecks : Type 0 where
  pub encoding_ok : Bool
  pub envelope : Entry → Option String
  pub reattach : String → String → String → String
  pub byte_count : String → ℕ
  pub max_postimage_bytes : ℕ
  pub secret_in : String → Option String
  pub confidence_ok : Bool
  pub token : String
  pub now : ℕ
  pub reason : String
  pub sha256 : String → String
  pub site : Site
  pub audit_lands : Bool

-- the status of an answer or an audit event, with what it names
pub data Resolution : Type 0 where
  invalid_encoding already_resolved rejected bad_decision edited_text_too_large : Resolution
  secret_in_edit : String → Resolution
  refused_by_gate : Rejection → Resolution
  committed_as : String → PushState → Resolution
  outcome_unknown_pending_recovery : Resolution

-- it answers, or an exception goes on to the caller
pub data ResolveEnd : Type 0 where
  resolves : Resolution → ResolveEnd
  raises : ResolveEnd

pub record Desk : Type 0 where
  pub disk : Disk
  pub tree : Tree
  pub audit : List Resolution
