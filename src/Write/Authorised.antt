-- ===== src/Write/Authorised.antt =====
-- tools_write.py: when `kb_propose_edit_fn` commits without an operator.
use data_olympus.Base.{
  String, Bool, true, false, not, ◌||◌, Option, none, some, List, [], ◌∷◌, if◌then◌else◌, ◌≡◌, ◌≢◌,
  refl, sym, ap, ◌∙◌, subst, arith,
}
use data_olympus.Limiter.{allow}
use data_olympus.Lane.Governed.{Demotion, governed_target}
use data_olympus.Pending.Records.{
  path_lock_busy, queue_full, not_found, already_resolved, claim_fenced, claim_unreadable,
  read_failed, write_failed, value_error,
}
use data_olympus.Pending.Disk.{Result, ok, err}
use data_olympus.Write.Answers.{
  PushState, Ending, committed, rejected, demoted, path_lock_busy as ends_busy,
  write_context_unavailable, write_outcome_unknown, raised, Tree,
}
use data_olympus.Write.Commit.{commit_in_worktree}
use data_olympus.Write.Passed.{Passed, IsWritten, commit_in_worktree-Passed}
use data_olympus.Write.Request.{
  EditRequest, Checks, Status, committed_status, EditEnd, answers, Server,
}
use data_olympus.Write.Audited.{answers_inj}
use data_olympus.Write.Propose.{
  first_refusal, emit_audit, parked, park, written, auto_commit, park_or_commit, is_demotion,
  is_contest, would_auto_commit, governed_lane_check, write_request, name_or, refuse_or, admitted,
  limited, propose_edit, early_tests, late_tests,
}

if_case {ℓ} :
    {A : Type ℓ} (P : A → Type 0) (b : Bool) (x y : A)
    → (b ≡ true → P x)
    → (b ≡ false → P y)
    → P (if b then x else y)
if_case P true x y px py = px refl
if_case P false x y px py = py refl

none_true : (a b c : Bool) → (not a || b || c) ≡ false → (a ≡ true) × (b ≡ false) × (c ≡ false)
none_true a b c h = (ground arith, ground arith, ground arith)

module _ (k : Checks) (r : EditRequest) (sha : String) (state : PushState) where
  abbrev pub path : String
  path = name_or "" (k.normalize r.target_path)

  -- the run is a commit under this sha
  abbrev IsCommit : Server × EditEnd → Type 0
  IsCommit x = x.1 ≡ answers (committed_status sha state)

  -- the write has passed its gates, and made its commit
  abbrev pub IsGated : Tree → Tree → Type 0
  IsGated t t' =
      (reported : Option String) × Passed (write_request k r path) k.site reported
      × IsWritten (write_request k r path) k.site sha state t t'

  -- the caller may commit, nothing is contested, and the governed lane does not demote
  abbrev pub IsDirect : Type 0
  IsDirect =
      (would_auto_commit k r ≡ true)
      × (is_demotion k r (governed_lane_check k r path) ≡ false)
      × (is_contest k.contest ≡ false)

  parked-IsCommit :
      (demotion : Option Demotion) (result : Result String) (v : Server)
      → ¬ IsCommit (parked k r demotion result v)
  parked-IsCommit demotion (ok pid) v h = cc
  parked-IsCommit demotion (err path_lock_busy) v h = cc
  parked-IsCommit demotion (err queue_full) v h = cc
  parked-IsCommit demotion (err not_found) v h = cc
  parked-IsCommit demotion (err already_resolved) v h = cc
  parked-IsCommit demotion (err claim_fenced) v h = cc
  parked-IsCommit demotion (err claim_unreadable) v h = cc
  parked-IsCommit demotion (err read_failed) v h = cc
  parked-IsCommit demotion (err write_failed) v h = cc
  parked-IsCommit demotion (err value_error) v h = cc

  park-IsCommit : (demotion : Option Demotion) (v : Server) → ¬ IsCommit (park k r path demotion v)
  unfolding park
  park-IsCommit demotion v h = parked-IsCommit demotion _ _ h

  abbrev Gated : Tree → Server × EditEnd → Type 0
  Gated t x = IsCommit x → IsGated t x.0.tree

  written-Gated :
      (e : Ending) (v : Server) (t : Tree)
      → (commit_in_worktree (write_request k r path) k.site t).1 ≡ e
      → (commit_in_worktree (write_request k r path) k.site t).0 ≡ v.tree
      → Gated t (written k r path e v)
  unfolding emit_audit
  written-Gated (committed s p override warnings) v t is tree h =
      let (passed, done) =
        commit_in_worktree-Passed (write_request k r path) k.site t sha state override warnings
          (is ∙ same_commit s p override warnings h) in
      (override, passed, subst (IsWritten (write_request k r path) k.site sha state t) tree done)
    where
      same_commit :
          (s : String) (p : PushState) (override : Option String) (warnings : List String)
          → answers (committed_status s p) ≡ answers (committed_status sha state)
          → committed s p override warnings ≡ committed sha state override warnings
      same_commit s p override warnings h = cc
  written-Gated (rejected why) v t is tree h = cc
  written-Gated demoted v t is tree h = absurd (park-IsCommit (some governed_target) v h)
  written-Gated ends_busy v t is tree h = cc
  written-Gated write_context_unavailable v t is tree h = cc
  written-Gated write_outcome_unknown v t is tree h = cc
  written-Gated raised v t is tree h = cc

  abbrev Direct : Tree → Server × EditEnd → Type 0
  Direct t x = IsCommit x → IsDirect × IsGated t x.0.tree

  park_or_commit-Direct : (v : Server) → Direct v.tree (park_or_commit k r path v)
  unfolding park_or_commit auto_commit
  park_or_commit-Direct v =
      if_case (Direct v.tree) _ _ _ (λ held h. absurd (park-IsCommit _ v h))
        (λ free h.
          (none_true (would_auto_commit k r) _ _ free, written-Gated _ _ v.tree refl refl h))

  abbrev AllRefusals : List (Bool × Status) → Type 0
  AllRefusals [] = Unit
  AllRefusals ((b, status) ∷ tests) = (status ≢ committed_status sha state) × AllRefusals tests

  first_refusal-refuses :
      (tests : List (Bool × Status))
      → AllRefusals tests
      → first_refusal tests ≢ some (committed_status sha state)
  unfolding first_refusal
  first_refusal-refuses [] all h = cc
  first_refusal-refuses ((true, status) ∷ tests) (it, all) h = it (some_inj status _ h)
    where
      some_inj : (a b : Status) → some a ≡ some b → a ≡ b
      some_inj a b h = cc
  first_refusal-refuses ((false, status) ∷ tests) (it, all) h = first_refusal-refuses tests all h

  early_tests-AllRefusals : AllRefusals (early_tests k r)
  unfolding early_tests
  early_tests-AllRefusals =
      ((λ h. cc), ((λ h. cc), ((λ h. cc), ((λ h. cc), ((λ h. cc), ((λ h. cc), tt))))))

  late_tests-AllRefusals : AllRefusals (late_tests k r path)
  unfolding late_tests
  late_tests-AllRefusals = ((λ h. cc), ((λ h. cc), tt))

  refuse_or-none :
      (o : Option Status) (v : Server) (next : Server × EditEnd)
      → o ≢ some (committed_status sha state)
      → IsCommit (refuse_or k r o v next)
      → (o ≡ none) × IsCommit next × (refuse_or k r o v next ≡ next)
  refuse_or-none none v next refuses h = (refl, h, refl)
  refuse_or-none (some status) v next refuses h =
      absurd (refuses (ap some_of (answers_inj status _ h)))
    where
      some_of : Status → Option Status
      some_of s = some s

  abbrev Late : Tree → Server × EditEnd → Type 0
  Late t x =
      IsCommit x → (first_refusal (late_tests k r path) ≡ none) × IsDirect × IsGated t x.0.tree

  admitted-Late : (v : Server) → Late v.tree (admitted k r path v)
  unfolding admitted
  admitted-Late v h =
      let (late, commits, same) =
        refuse_or-none (first_refusal (late_tests k r path)) v (park_or_commit k r path v)
          (first_refusal-refuses (late_tests k r path) late_tests-AllRefusals) h in
      let (direct, gated) = park_or_commit-Direct v commits in
      (late, direct, subst (λ x. IsGated v.tree x.0.tree) (sym same) gated)

  abbrev pub WasAllowed : Server → Type 0
  WasAllowed v =
      (allow k.max_per_hour k.max_per_ip_per_hour k.now (r.remote_addr, r.agent_identity)
        v.limiter).0
      ≡ true

  abbrev Counted : Server → Server × EditEnd → Type 0
  Counted v x =
      IsCommit x
      → WasAllowed v
        × (first_refusal (late_tests k r path) ≡ none)
        × IsDirect
        × IsGated v.tree x.0.tree

  limited-Counted : (v : Server) → Counted v (limited k r path v)
  unfolding limited
  limited-Counted v =
      if_case (Counted v) _ _ _
        (λ allowed h.
          let (late, direct, gated) = admitted-Late _ h in (allowed, late, direct, gated))
        (λ refused h. cc)

  -- What an edit that commits without an operator has passed: the text checks and the checks of the
  -- path, the rate limiter, the checks of the contest and the size, the threshold and the permission
  -- to commit, the governed lane, which does not demote it, and each gate of the write. The tree has
  -- the one commit of its postimage.
  pub propose_edit-IsGated :
      (v : Server)
      → (propose_edit k r v).1 ≡ answers (committed_status sha state)
      → (k.encoding_ok ≡ true)
        × (first_refusal (early_tests k r) ≡ none)
        × WasAllowed v
        × (first_refusal (late_tests k r path) ≡ none)
        × IsDirect
        × IsGated v.tree (propose_edit k r v).0.tree
  unfolding propose_edit
  propose_edit-IsGated v h = if_case P _ _ _ by_tests (λ unencodable g. cc) h
    where
      P : Server × EditEnd → Type 0
      P x =
          IsCommit x
          → (k.encoding_ok ≡ true)
            × (first_refusal (early_tests k r) ≡ none)
            × WasAllowed v
            × (first_refusal (late_tests k r path) ≡ none)
            × IsDirect
            × IsGated v.tree x.0.tree

      by_tests :
          k.encoding_ok ≡ true
          → P (refuse_or k r (first_refusal (early_tests k r)) v (limited k r path v))
      by_tests encodable g =
          let (early, commits, same) =
            refuse_or-none (first_refusal (early_tests k r)) v (limited k r path v)
              (first_refusal-refuses (early_tests k r) early_tests-AllRefusals) g in
          let (allowed, late, direct, gated) = limited-Counted v commits in
          (
            encodable,
            early,
            allowed,
            late,
            direct,
            subst (λ x. IsGated v.tree x.0.tree) (sym same) gated,
          )
