-- ===== src/Write/Gates.antt =====
-- tools_write.py: the gates of `_commit_in_worktree`, in order. They change nothing.
use data_olympus.Base.{
  String, Bool, true, false, not, ◌||◌, Option, none, some, List, [], ◌∷◌, if◌then◌else◌,
}
use data_olympus.Gate.Cas.{CasResult, is_given, is_enforceable_base_commit, check_cas}
use data_olympus.Lane.Governed.{is_base_content_in_force}
use data_olympus.Write.Answers.{
  Mode, off_mode, warn_mode, enforce_mode, WriteRequest, Site, stale_base, symlink_escape,
  writing_rule, invalid_document, secret_detected, Refusal, refuse, demote, busy, fault,
}

pub data Gated {ℓ} (A : Type ℓ) : Type ℓ where
  pass : A → Gated A
  stop : Refusal → Gated A

infixl 10 ◌>>=◌ ◌>>◌
abbrev pub ◌>>=◌ {ℓ κ} : {A : Type ℓ} {B : Type κ} → Gated A → (A → Gated B) → Gated B
pass a >>= f = f a
stop e >>= f = stop e

abbrev pub ◌>>◌ {ℓ} : {B : Type ℓ} → Gated (Unit {0}) → Gated B → Gated B
m >> k = m >>= λ _. k

abbrev pub require : Bool → Refusal → Gated (Unit {0})
require true e = pass tt
require false e = stop e

abbrev pub value_or {ℓ} : {A : Type ℓ} → Refusal → Option A → Gated A
value_or e none = stop e
value_or e (some a) = pass a

abbrev pub no_list : List String → Bool
no_list [] = true
no_list (x ∷ xs) = false

abbrev pub is_ok : CasResult → Bool
is_ok none = true
is_ok (some s) = false

abbrev pub first_of : Option String → Option String → Option String
first_of none o = o
first_of (some s) o = some s

abbrev pub or_blank : Option String → String
or_blank none = ""
or_blank (some s) = s

-- a flagged text stops the write, unless the operator overrides the scan
abbrev pub scan_gate : Bool → Option String → Gated (Option String)
scan_gate override none = pass none
scan_gate override (some name) =
    if override then pass (some name) else stop (refuse (secret_detected name))

-- `_writing_rule_gate` where the rules are on: the findings, or none where the check itself failed
abbrev pub judge_findings : Bool → Option (List String) → Gated (List String)
judge_findings enforced none =
    if enforced then stop (refuse writing_rule) else pass ("writing-rule check failed" ∷ [])
judge_findings enforced (some []) = pass []
judge_findings enforced (some (x ∷ xs)) =
    if enforced then stop (refuse writing_rule) else pass (x ∷ xs)

module _ (r : WriteRequest) (s : Site) where
  -- an existing target that is not UTF-8 makes the check fail
  unfoldable pub rule_findings : Option (List String)
  rule_findings = elim s.current [
    | none ↦ s.added_findings "" r.postimage
    | some content ↦ if s.decodable then s.added_findings content r.postimage else none
  ]

  abbrev pub rule_gate_on : Bool → Gated (List String)
  rule_gate_on enforced =
      if s.excludes r.target_path then pass [] else judge_findings enforced rule_findings

  unfoldable pub writing_rule_gate : Option Mode → Gated (List String)
  writing_rule_gate none = pass []
  writing_rule_gate (some off_mode) = pass []
  writing_rule_gate (some warn_mode) = rule_gate_on false
  writing_rule_gate (some enforce_mode) = rule_gate_on true

  unfoldable pub cas_enforceable : Bool
  cas_enforceable =
      is_given r.base_blob_sha
      || is_given r.target_file_hash
      || is_enforceable_base_commit r.base_commit

  unfoldable pub cas_result : CasResult
  cas_result =
      check_cas s.blob_sha s.sha256 s.commit_exists s.git_blob_at s.current r.target_path
        r.base_commit r.base_blob_sha r.target_file_hash

  -- the target on the refreshed base is in force: the edit is demoted
  abbrev pub judge_base : Option String → Gated (Unit {0})
  judge_base none = pass tt
  judge_base (some content) =
      if s.decodable
      then if is_base_content_in_force (s.frontmatter content) s.today (s.is_inbox r.target_path)
        then stop demote
        else pass tt
      else stop fault

  unfoldable pub backstop : Gated (Unit {0})
  backstop = if r.governed_target_check then judge_base s.current else pass tt

  -- the override that was used, and the warnings of the writing rules
  unfoldable pub gates : Gated (Option String × List String)
  gates = do
    require (r.hold_path_lock || s.path_lock_free) busy
    require s.worktree_ok fault
    require (not cas_enforceable || s.refresh_ok) (refuse stale_base)
    _ ← value_or fault s.message
    _ ← value_or (refuse symlink_escape) s.full_path
    require (is_ok cas_result) (refuse stale_base)
    in_path ← scan_gate r.secret_scan_override (s.secret_in r.target_path)
    in_text ← scan_gate r.secret_scan_override (s.secret_in r.postimage)
    warnings ← writing_rule_gate r.writing_rules
    require (no_list (s.validation_errors r.postimage)) (refuse invalid_document)
    backstop
    pass (first_of in_path in_text, warnings)
