-- ===== src/Write/Audited.antt =====
-- tools_write.py: the audit events of `kb_propose_edit_fn`.
use data_olympus.Base.{
  String, Bool, true, false, Option, none, some, List, [], ◌∷◌, ◌++◌, if◌then◌else◌, if_both, ◌≡◌,
  refl, ap,
}
use data_olympus.Lane.Governed.{Demotion}
use data_olympus.Pending.Records.{
  path_lock_busy, queue_full, not_found, already_resolved, claim_fenced, claim_unreadable,
  read_failed, write_failed, value_error,
}
use data_olympus.Pending.Disk.{Result, ok, err}
use data_olympus.Write.Answers.{
  Ending, committed, rejected, demoted, path_lock_busy as ends_busy, write_context_unavailable,
  write_outcome_unknown, raised,
}
use data_olympus.Write.Request.{
  EditRequest, Checks, Status, rejected_rate_limited, rejected_invalid_encoding, EditEnd, answers,
  Server,
}
use data_olympus.Write.Propose.{
  first_refusal, emit_audit, tell, parked, park, written, auto_commit, park_or_commit, refuse_or,
  admitted, limited, propose_edit, early_tests, late_tests,
}

pub answers_inj : (a b : Status) → answers a ≡ answers b → a ≡ b
answers_inj a b h = cc

module _ (k : Checks) (r : EditRequest) (lands : k.audit_lands ≡ true) where
  -- an answer comes with one event of its status
  abbrev Told : List Status → Server × EditEnd → Type 0
  Told before (v, e) = (status : Status) → e ≡ answers status → v.audit ≡ before ++ status ∷ []

  tell-Told :
      (before : List Status) (status : Status) (v : Server)
      → v.audit ≡ before
      → Told before (tell k r status v)
  unfolding emit_audit
  tell-Told before status v same s h =
      rw lands (rw same (ap (λ x. before ++ x ∷ []) (answers_inj status s h)))

  parked-Told :
      (before : List Status) (demotion : Option Demotion) (result : Result String) (v : Server)
      → v.audit ≡ before
      → Told before (parked k r demotion result v)
  parked-Told before demotion (ok pid) v same = tell-Told before _ v same
  parked-Told before demotion (err path_lock_busy) v same = tell-Told before _ v same
  parked-Told before demotion (err queue_full) v same = tell-Told before _ v same
  parked-Told before demotion (err not_found) v same = λ s h. cc
  parked-Told before demotion (err already_resolved) v same = λ s h. cc
  parked-Told before demotion (err claim_fenced) v same = λ s h. cc
  parked-Told before demotion (err claim_unreadable) v same = λ s h. cc
  parked-Told before demotion (err read_failed) v same = λ s h. cc
  parked-Told before demotion (err write_failed) v same = λ s h. cc
  parked-Told before demotion (err value_error) v same = λ s h. cc

  park-Told :
      (before : List Status) (path : String) (demotion : Option Demotion) (v : Server)
      → v.audit ≡ before
      → Told before (park k r path demotion v)
  unfolding park
  park-Told before path demotion v same = parked-Told before demotion _ _ same

  written-Told :
      (before : List Status) (path : String) (e : Ending) (v : Server)
      → v.audit ≡ before
      → Told before (written k r path e v)
  written-Told before path (committed sha state override warnings) v same =
      tell-Told before _ v same
  written-Told before path (rejected why) v same = tell-Told before _ v same
  written-Told before path demoted v same = park-Told before path _ v same
  written-Told before path ends_busy v same = tell-Told before _ v same
  written-Told before path write_context_unavailable v same = λ s h. cc
  written-Told before path write_outcome_unknown v same = λ s h. cc
  written-Told before path raised v same = λ s h. cc

  refuse_or-Told :
      (before : List Status) (o : Option Status) (v : Server) (next : Server × EditEnd)
      → v.audit ≡ before
      → Told before next
      → Told before (refuse_or k r o v next)
  refuse_or-Told before none v next same h = h
  refuse_or-Told before (some status) v next same h = tell-Told before status v same

  park_or_commit-Told :
      (before : List Status) (path : String) (v : Server)
      → v.audit ≡ before
      → Told before (park_or_commit k r path v)
  unfolding park_or_commit auto_commit
  park_or_commit-Told before path v same =
      if_both (Told before) _ _ _ (park-Told before path _ v same)
        (written-Told before path _ _ same)

  limited-Told :
      (before : List Status) (path : String) (v : Server)
      → v.audit ≡ before
      → Told before (limited k r path v)
  unfolding limited admitted
  limited-Told before path v same =
      if_both (Told before) _ _ _
        (refuse_or-Told before (first_refusal (late_tests k r path)) _ _ same
          (park_or_commit-Told before path _ same))
        (tell-Told before rejected_rate_limited _ same)

  -- Where the audit log takes events, each answer to an edit whose texts can be encoded leaves exactly
  -- one audit event, with the status of the answer and the ids that it names: whether the edit is
  -- refused by a check, the rate limiter or a gate of the write, parked as pending, or committed. The
  -- answer to an edit whose texts cannot be encoded leaves none.
  pub propose_edit-audit :
      (v : Server) (status : Status)
      → (propose_edit k r v).1 ≡ answers status
      → (propose_edit k r v).0.audit ≡ (if k.encoding_ok then v.audit ++ status ∷ [] else v.audit)
  unfolding propose_edit
  propose_edit-audit v status h =
      by_encoding k.encoding_ok _ (v, answers rejected_invalid_encoding) refl
        (refuse_or-Told v.audit (first_refusal (early_tests k r)) v _ refl
          (limited-Told v.audit _ v refl))
        h
    where
      by_encoding :
          (b : Bool) (x y : Server × EditEnd)
          → y.0.audit ≡ v.audit
          → Told v.audit x
          → (if b then x else y).1 ≡ answers status
          → (if b then x else y).0.audit ≡ (if b then v.audit ++ status ∷ [] else v.audit)
      by_encoding true x y same told h = told status h
      by_encoding false x y same told h = same
