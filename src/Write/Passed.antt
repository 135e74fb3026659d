-- ===== src/Write/Passed.antt =====
-- tools_write.py: what `_commit_in_worktree` has checked and done when it returns.
use data_olympus.Base.{
  String, Bool, true, false, not, ◌&&◌, ◌||◌, Option, none, some, List, [], ◌∷◌, ◌++◌,
  if◌then◌else◌, ◌≡◌, ◌≢◌, refl, sym, ap, ◌∙◌, subst, arith, Bool-cases, inl, inr,
}
use data_olympus.Lane.Governed.{is_base_content_in_force}
use data_olympus.Write.Answers.{
  Mode, off_mode, warn_mode, enforce_mode, WriteRequest, CommitEnd, exits_zero, declines, killed,
  unobserved, Site, stale_base, invalid_document, PushState, queued,
  enqueue_failed_recovery_pending, Ending, committed, Refusal, refuse, demote, busy, fault, Tree,
  ending_of,
}
use data_olympus.Write.Gates.{
  Gated, pass, stop, ◌>>=◌, require, value_or, no_list, is_ok, first_of, scan_gate, judge_findings,
  rule_findings, writing_rule_gate, cas_enforceable, cas_result, judge_base, backstop, gates,
}
use data_olympus.Write.Commit.{
  is_some, enqueue_after_commit, after_commit, after_landing, git_commit, write_file, context_lands,
  write_phase, behind_gates, commit_in_worktree,
}

bind_pass {ℓ κ} :
    {A : Type ℓ} {B : Type κ} (m : Gated A) (f : A → Gated B) (b : B)
    → (m >>= f) ≡ pass b
    → (a : A) × (m ≡ pass a) × (f a ≡ pass b)
bind_pass (pass a) f b h = (a, refl, h)
bind_pass (stop e) f b h = cc

require_pass : (b : Bool) (e : Refusal) (u : Unit {0}) → require b e ≡ pass u → b ≡ true
require_pass true e u h = refl
require_pass false e u h = cc

value_or_pass :
    (e : Refusal) (o : Option String) (a : String) → value_or e o ≡ pass a → is_some o ≡ true
value_or_pass e (some x) a h = refl
value_or_pass e none a h = cc

scan_pass :
    (override : Bool) (o x : Option String)
    → scan_gate override o ≡ pass x
    → (x ≡ o) × ((override || not (is_some o)) ≡ true)
scan_pass override none x h = (cc, ground arith)
scan_pass true (some name) x h = (cc, refl)
scan_pass false (some name) x h = cc

abbrev override_of : Gated (Option String × List String) → Option String
override_of (pass (o, ws)) = o
override_of (stop e) = none

abbrev is_clean : Option (List String) → Bool
is_clean none = false
is_clean (some xs) = no_list xs

module _ (r : WriteRequest) (s : Site) where
  -- in the mode `enforce`, on a path that is not excluded, the check has findings or fails
  abbrev pub rules_block : Option Mode → Bool
  rules_block none = false
  rules_block (some off_mode) = false
  rules_block (some warn_mode) = false
  rules_block (some enforce_mode) =
      not (s.excludes r.target_path) && not (is_clean (rule_findings r s))

  -- the target on the base is in force
  abbrev pub base_in_force : Option String → Bool
  base_in_force none = false
  base_in_force (some content) =
      is_base_content_in_force (s.frontmatter content) s.today (s.is_inbox r.target_path)

  judge_findings-clean :
      (o : Option (List String)) (ws : List String)
      → judge_findings true o ≡ pass ws
      → is_clean o ≡ true
  judge_findings-clean none ws h = cc
  judge_findings-clean (some []) ws h = refl
  judge_findings-clean (some (x ∷ xs)) ws h = cc

  rule_pass :
      (m : Option Mode) (ws : List String)
      → writing_rule_gate r s m ≡ pass ws
      → rules_block m ≡ false
  unfolding writing_rule_gate
  rule_pass none ws h = refl
  rule_pass (some off_mode) ws h = refl
  rule_pass (some warn_mode) ws h = refl
  rule_pass (some enforce_mode) ws h = elim (Bool-cases (s.excludes r.target_path)) [
    | inl out ↦ rw out refl
    | inr inside ↦ rw (inside, judge_findings-clean (rule_findings r s) ws (rw inside at h)) refl
  ]

  judge_base-clear :
      (o : Option String) (u : Unit {0}) → judge_base r s o ≡ pass u → base_in_force o ≡ false
  judge_base-clear none u h = refl
  judge_base-clear (some content) u h = ground (arith, h)

  backstop_pass :
      (u : Unit {0})
      → backstop r s ≡ pass u
      → (r.governed_target_check && base_in_force s.current) ≡ false
  unfolding backstop
  backstop_pass u h = elim (Bool-cases r.governed_target_check) [
    | inl on ↦ rw (on, judge_base-clear s.current u (rw on at h)) refl
    | inr off ↦ rw off refl
  ]

  -- what the gates have checked
  pub record Passed (override : Option String) : Type 0 where
    pub locked : (r.hold_path_lock || s.path_lock_free) ≡ true
    pub in_worktree : s.worktree_ok ≡ true
    pub refreshed : (not (cas_enforceable r s) || s.refresh_ok) ≡ true
    pub has_message : is_some s.message ≡ true
    pub contained : is_some s.full_path ≡ true
    pub current : is_ok (cas_result r s) ≡ true
    pub no_secret_in_path :
        (r.secret_scan_override || not (is_some (s.secret_in r.target_path))) ≡ true
    pub no_secret_in_text :
        (r.secret_scan_override || not (is_some (s.secret_in r.postimage))) ≡ true
    pub reported : override ≡ first_of (s.secret_in r.target_path) (s.secret_in r.postimage)
    pub rules_kept : rules_block r.writing_rules ≡ false
    pub valid : no_list (s.validation_errors r.postimage) ≡ true
    pub not_in_force : (r.governed_target_check && base_in_force s.current) ≡ false

  gates-Passed :
      (override : Option String) (warnings : List String)
      → gates r s ≡ pass (override, warnings)
      → Passed override
  unfolding gates
  gates-Passed override warnings h =
      let (u0, locked, h1) = bind_pass (require _ busy) _ _ h in
      let (u1, worktree, h2) = bind_pass (require s.worktree_ok fault) _ _ h1 in
      let (u2, refreshed, h3) = bind_pass (require _ (refuse stale_base)) _ _ h2 in
      let (message, made, h4) = bind_pass (value_or fault s.message) _ _ h3 in
      let (full_path, inside, h5) = bind_pass (value_or _ s.full_path) _ _ h4 in
      let (u3, current, h6) = bind_pass (require _ (refuse stale_base)) _ _ h5 in
      let (in_path, path, h7) = bind_pass (scan_gate _ (s.secret_in r.target_path)) _ _ h6 in
      let (in_text, text, h8) = bind_pass (scan_gate _ (s.secret_in r.postimage)) _ _ h7 in
      let (ws, rules, h9) = bind_pass (writing_rule_gate r s r.writing_rules) _ _ h8 in
      let (u4, valid, h10) = bind_pass (require _ (refuse invalid_document)) _ _ h9 in
      let (u5, base, h11) = bind_pass (backstop r s) _ _ h10 in
      let (path_is, path_ok) = scan_pass _ _ in_path path in
      let (text_is, text_ok) = scan_pass _ _ in_text text in
      record {
        locked = require_pass _ _ u0 locked;
        in_worktree = require_pass _ _ u1 worktree;
        refreshed = require_pass _ _ u2 refreshed;
        has_message = value_or_pass _ s.message message made;
        contained = value_or_pass _ s.full_path full_path inside;
        current = require_pass _ _ u3 current;
        no_secret_in_path = path_ok;
        no_secret_in_text = text_ok;
        reported =
            sym (ap override_of h11)
            ∙ (ap (λ o. first_of o in_text) path_is
                ∙ ap (first_of (s.secret_in r.target_path)) text_is);
        rules_kept = rule_pass r.writing_rules ws rules;
        valid = require_pass _ _ u4 valid;
        not_in_force = backstop_pass u5 base;
      }

  abbrev pub queue_after : PushState → String → List String → List String
  queue_after queued sha q = q ++ sha ∷ []
  queue_after enqueue_failed_recovery_pending sha q = q

  -- The effects of a write that returns: one commit, of the postimage, with the sha that git names,
  -- which is in the push queue where the answer says so.
  abbrev pub IsWritten : String → PushState → Tree → Tree → Type 0
  IsWritten sha state t t' =
      (t'.commits ≡ t.commits ++ r.postimage ∷ [])
      × (t'.push_queue ≡ queue_after state sha t.push_queue)
      × (s.head_after ≡ some sha)

  -- what is to be shown of a run
  abbrev Fine :
      String
      → PushState
      → Option String
      → List String
      → Tree
      → Option String
      → Tree × Ending
      → Type 0
  Fine sha state reported ws t override x =
      x.1 ≡ committed sha state reported ws → IsWritten sha state t x.0 × (reported ≡ override)

  if_Fine :
      (P : Tree × Ending → Type 0) (b : Bool) (x y : Tree × Ending)
      → P x
      → P y
      → P (if b then x else y)
  if_Fine P true x y px py = px
  if_Fine P false x y px py = py

  module _ (sha : String) (state : PushState) (reported : Option String) (ws warnings : List String)
      (override : Option String) where
    git_commit-Fine :
        (end : CommitEnd) (t : Tree)
        → Fine sha state reported ws t override (git_commit r s end override warnings t)
    unfolding git_commit after_landing after_commit enqueue_after_commit
    git_commit-Fine exits_zero t h =
        ((ground (arith, h), ground (arith, h), ground (arith, h)), ground (arith, h))
    git_commit-Fine declines t h = cc
    git_commit-Fine (killed landed) t h = cc
    git_commit-Fine (unobserved landed) t h = cc

    write_file-Fine :
        (t : Tree) → Fine sha state reported ws t override (write_file r s override warnings t)
    unfolding write_file
    write_file-Fine t =
        let P = Fine sha state reported ws t override in
        if_Fine P (not s.write_ok) _ _ (λ h. cc)
          (if_Fine P s.add_ok _ _
            (git_commit-Fine s.commit_end (record t { dirty = true; staged = true })) (λ h. cc))

    write_phase-Fine :
        (t : Tree) → Fine sha state reported ws t override (write_phase r s override warnings t)
    unfolding write_phase
    write_phase-Fine t =
        let P = Fine sha state reported ws t override in
        if_Fine P r.has_claim_recorder _ _
          (if_Fine P (context_lands r s) _ _ (write_file-Fine (record t { has_context = true }))
            (λ h. cc))
          (write_file-Fine t)

  -- A write that returns has passed every gate and has made one commit. The path was locked and
  -- the worktree made; a base marker was checked on a refreshed base and agrees; the commit message
  -- was built; the target, with its symbolic links resolved, lies inside the worktree; neither the path nor the text has a secret,
  -- unless the operator overrides the scan, and then the answer reports it; no writing rule that is
  -- enforced is broken; the document is valid; the target is not in force where that is checked.
  -- Exactly the postimage is committed, under the sha that git names, and that sha is in the push
  -- queue where the answer says that it is queued.
  pub commit_in_worktree-Passed :
      (t : Tree) (sha : String) (state : PushState) (reported : Option String) (ws : List String)
      → (commit_in_worktree r s t).1 ≡ committed sha state reported ws
      → Passed reported × IsWritten sha state t (commit_in_worktree r s t).0
  unfolding commit_in_worktree
  commit_in_worktree-Passed t sha state reported ws h = by_gates (gates r s) refl h
    where
      not_committed : (e : Refusal) → ending_of e ≢ committed sha state reported ws
      not_committed (refuse why) h = cc
      not_committed demote h = cc
      not_committed busy h = cc
      not_committed fault h = cc

      by_gates :
          (g : Gated (Option String × List String))
          → gates r s ≡ g
          → (behind_gates r s g t).1 ≡ committed sha state reported ws
          → Passed reported × IsWritten sha state t (behind_gates r s g t).0
      by_gates (pass (override, warnings)) is h =
          let (written, same) = write_phase-Fine sha state reported ws warnings override t h in
          (subst Passed (sym same) (gates-Passed override warnings is), written)
      by_gates (stop e) is h = absurd (not_committed e h)
