-- ===== src/Tests/Resolve.antt =====
-- Runs of the resolution of a pending proposal (tools_write.py).
use data_olympus.Base.{
  String, true, false, none, some, List, [], ◌∷◌, lookup, put, remove, ◌≡◌, ◌≢◌, refl, sym, ◌∙◌,
}
use data_olympus.Pending.Records.{is_pending_id}
use data_olympus.Pending.Disk.{apply, run, pure, raise, gets, emit, guard, onward, ◌>>=◌}
use data_olympus.Pending.Lock.{path_lock_filename, acquire_lock}
use data_olympus.Pending.Queue.{size, publish, enqueue, get, loaded, strip}
use data_olympus.Pending.Claim.{
  claim, rename_to_claimed, load_sidecar, claim_for_resolve, store_digest, sidecar, read_claim,
  check_token, fenced, restore_resolve,
}
use data_olympus.Pending.System.{effects}
use data_olympus.Gate.Cas.{
  is_enforceable_base_commit, current_blob, check_commit, check_file_hash, check_cas,
}
use data_olympus.Write.Answers.{warn_mode, invalid_document}
use data_olympus.Write.Gates.{
  gates, cas_enforceable, cas_result, writing_rule_gate, rule_findings, backstop,
}
use data_olympus.Write.Commit.{
  commit_in_worktree, write_phase, context_lands, write_file, git_commit, after_landing,
  after_commit, enqueue_after_commit,
}
use data_olympus.Write.Decision.{
  decides_approve, decides_edit, decides_reject, ResolveRequest, ResolveChecks, refused_by_gate,
  resolves, Desk,
}
use data_olympus.Write.Resolve.{
  resolve_pending, with_capture_reattached, approve_entry, claim_and_write, write_claimed_entry,
  write_request, context_call, outcome_call, finalize_call, emit_audit,
}
use data_olympus.Write.Once.{resolve_pending_once}
use data_olympus.Write.Kept.{approved_text, KeptOrCommitted, resolve_pending_keeps}
use data_olympus.Write.Handback.{HandedBack, resolve_pending-HandedBack}
use data_olympus.Tests.Pending.{digest, first, both_enqueued}
use data_olympus.Tests.Claims.{waiting, first-valid, lookup-waiting}
use data_olympus.Tests.Write.{site, fresh}

abbrev approval : ResolveRequest
approval = record {
  pending_id = first;
  decision = decides_approve;
  edited_text = none;
  override_secret_scan = false;
  writing_rules = some warn_mode;
}

abbrev correction : ResolveRequest
correction = record approval { decision = decides_edit; edited_text = some "better" }

abbrev checks : ResolveChecks
checks = record {
  encoding_ok = true;
  envelope = λ e. none;
  reattach = λ base envelope original. base;
  byte_count = λ s. 4;
  max_postimage_bytes = 100;
  secret_in = λ s. none;
  confidence_ok = true;
  token = "t";
  now = 12;
  reason = "why";
  sha256 = digest;
  site = site;
  audit_lands = true;
}

abbrev strict : ResolveChecks
strict = record checks { site = record site { validation_errors = λ s. "no id" ∷ [] } }

abbrev desk : Desk
desk = record { disk = both_enqueued; tree = fresh; audit = [] }

commits : (resolve_pending checks approval desk).0.tree.commits ≡ "text" ∷ []
unfolding resolve_pending with_capture_reattached approve_entry claim_and_write write_claimed_entry
    write_request context_call outcome_call finalize_call emit_audit get loaded effects enqueue size
    acquire_lock publish claim rename_to_claimed load_sidecar claim_for_resolve store_digest
    is_pending_id path_lock_filename ◌>>=◌ onward pure raise gets emit guard run apply lookup put
    remove commit_in_worktree gates cas_enforceable cas_result check_cas check_file_hash
    check_commit current_blob is_enforceable_base_commit writing_rule_gate rule_findings backstop
    strip write_phase context_lands write_file git_commit after_landing after_commit
    enqueue_after_commit
commits = refl

is_some_list : {x : String} {xs : List String} → x ∷ xs ≢ []
is_some_list h = cc

grown : (resolve_pending checks approval desk).0.tree.commits ≢ []
grown h = is_some_list (sym commits ∙ h)

resolve_pending_once_example :
    let after = (resolve_pending checks approval desk).0 in
    ((resolve_pending strict correction after).0.tree ≡ after.tree)
    × ((resolve_pending strict correction after).0.disk ≡ after.disk)
resolve_pending_once_example =
    resolve_pending_once checks approval desk strict correction refl grown

edits : decides_edit ≢ decides_reject
edits h = cc

resolve_pending_keeps_example :
    KeptOrCommitted checks correction desk waiting
      (approved_text checks correction desk waiting)
      (resolve_pending checks correction desk).0
resolve_pending_keeps_example =
    resolve_pending_keeps checks correction desk waiting first-valid lookup-waiting edits

refuses : (resolve_pending strict approval desk).1 ≡ resolves (refused_by_gate invalid_document)
unfolding resolve_pending with_capture_reattached approve_entry claim_and_write write_claimed_entry
    write_request context_call outcome_call finalize_call emit_audit get loaded effects enqueue size
    acquire_lock publish claim rename_to_claimed load_sidecar claim_for_resolve store_digest
    is_pending_id path_lock_filename ◌>>=◌ onward pure raise gets emit guard run apply lookup put
    remove commit_in_worktree gates cas_enforceable cas_result check_cas check_file_hash
    check_commit current_blob is_enforceable_base_commit writing_rule_gate rule_findings backstop
    strip restore_resolve fenced read_claim sidecar check_token
refuses = refl

resolve_pending-HandedBack_example :
    HandedBack strict approval desk waiting (resolve_pending strict approval desk).0
resolve_pending-HandedBack_example =
    resolve_pending-HandedBack strict approval desk waiting invalid_document first-valid
      lookup-waiting refuses
