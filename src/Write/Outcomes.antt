-- ===== src/Write/Outcomes.antt =====
-- tools_write.py: what the claim says after a write, and what the resolver does with it.
use data_olympus.Base.{String, true, Option, none, some, List, [], ◌∷◌, ◌++◌, ◌≡◌, refl, arith}
use data_olympus.Write.Answers.{
  WriteRequest, CommitEnd, exits_zero, declines, killed, unobserved, Site, Ending, Outcome,
  outcome_committed, outcome_failed, outcome_unknown, Tree,
}
use data_olympus.Write.Gates.{Gated, pass, stop, gates}
use data_olympus.Write.Commit.{
  enqueue_after_commit, after_commit, after_landing, git_commit, write_file, write_phase,
  behind_gates, commit_in_worktree, restores,
}

module _ (r : WriteRequest) (s : Site) where
  -- a run that puts the entry back has committed nothing
  abbrev Safe : Tree → Tree × Ending → Type 0
  Safe t (t', e) = restores t' e ≡ true → t'.commits ≡ t.commits

  git_commit-Safe :
      (end : CommitEnd) (override : Option String) (warnings : List String) (t : Tree)
      → t.last_outcome ≡ none
      → Safe t (git_commit r s end override warnings t)
  unfolding git_commit restores after_landing after_commit enqueue_after_commit
  git_commit-Safe exits_zero override warnings t fresh h = ground arith
  git_commit-Safe declines override warnings t fresh h = ground arith
  git_commit-Safe (killed landed) override warnings t fresh h = ground arith
  git_commit-Safe (unobserved landed) override warnings t fresh h = ground arith

  write_file-Safe :
      (override : Option String) (warnings : List String) (t : Tree)
      → t.last_outcome ≡ none
      → Safe t (write_file r s override warnings t)
  unfolding write_file restores
  write_file-Safe override warnings t fresh h = ground (
    arith,
    git_commit-Safe s.commit_end override warnings (record t { dirty = true; staged = true }) fresh,
  )

  write_phase-Safe :
      (override : Option String) (warnings : List String) (t : Tree)
      → t.last_outcome ≡ none
      → Safe t (write_phase r s override warnings t)
  unfolding write_phase restores
  write_phase-Safe override warnings t fresh h = ground (
    arith,
    write_file-Safe override warnings t fresh,
    write_file-Safe override warnings (record t { has_context = true }) fresh,
  )

  -- A resolution that puts the entry back has committed nothing: with a fresh recorder, whenever
  -- the ending of the write makes the resolver restore the claim, the branch has the commits that it
  -- had before, for every behaviour of git and of the file system, a killed commit that landed
  -- included.
  pub commit_in_worktree-restores :
      (t : Tree)
      → t.last_outcome ≡ none
      → restores (commit_in_worktree r s t).0 (commit_in_worktree r s t).1 ≡ true
      → (commit_in_worktree r s t).0.commits ≡ t.commits
  unfolding commit_in_worktree
  commit_in_worktree-restores t fresh h = by_gates (gates r s) h
    where
      by_gates : (g : Gated (Option String × List String)) → Safe t (behind_gates r s g t)
      by_gates (pass (override, warnings)) h = write_phase-Safe override warnings t fresh h
      by_gates (stop e) h = refl

  -- what the claim says of the branch
  abbrev pub TruthOf : Tree → Option Outcome → Tree → Type 0
  TruthOf t none t' = Unit
  TruthOf t (some outcome_unknown) t' = Unit
  TruthOf t (some outcome_failed) t' = t'.commits ≡ t.commits
  TruthOf t (some (outcome_committed sha)) t' =
      (t'.commits ≡ t.commits ++ r.postimage ∷ []) × (s.head_after ≡ some sha)

  abbrev Failing : Tree → Tree × Ending → Type 0
  Failing t (t', e) = t'.recorded ≡ some outcome_failed → t'.commits ≡ t.commits

  abbrev Landing : String → Tree → Tree × Ending → Type 0
  Landing sha t (t', e) =
      t'.recorded ≡ some (outcome_committed sha) → t'.commits ≡ t.commits ++ r.postimage ∷ []

  abbrev Naming : String → Tree → Tree × Ending → Type 0
  Naming sha t (t', e) = t'.recorded ≡ some (outcome_committed sha) → s.head_after ≡ some sha

  abbrev Truthful : String → Tree → Tree × Ending → Type 0
  Truthful sha t x = Failing t x × Landing sha t x × Naming sha t x

  git_commit-Truthful :
      (end : CommitEnd) (override : Option String) (warnings : List String) (sha : String)
      (t : Tree)
      → t.recorded ≡ none
      → Truthful sha t (git_commit r s end override warnings t)
  unfolding git_commit after_landing after_commit enqueue_after_commit
  git_commit-Truthful exits_zero override warnings sha t fresh =
      ((λ h. ground (arith, h)), (λ h. ground (arith, h)), λ h. ground (arith, h))
  git_commit-Truthful declines override warnings sha t fresh =
      ((λ h. ground (arith, h)), (λ h. ground (arith, h)), λ h. ground (arith, h))
  git_commit-Truthful (killed landed) override warnings sha t fresh =
      ((λ h. ground (arith, h)), (λ h. ground (arith, h)), λ h. ground (arith, h))
  git_commit-Truthful (unobserved landed) override warnings sha t fresh =
      ((λ h. ground (arith, h)), (λ h. ground (arith, h)), λ h. ground (arith, h))

  write_file-Truthful :
      (override : Option String) (warnings : List String) (sha : String) (t : Tree)
      → t.recorded ≡ none
      → Truthful sha t (write_file r s override warnings t)
  unfolding write_file
  write_file-Truthful override warnings sha t fresh =
      let (failing, landing, naming) =
        git_commit-Truthful s.commit_end override warnings sha
          (record t { dirty = true; staged = true }) fresh in
      (
        (λ h. ground (arith, h, failing)),
        (λ h. ground (arith, h, landing)),
        λ h. ground (arith, h, naming),
      )

  write_phase-Truthful :
      (override : Option String) (warnings : List String) (sha : String) (t : Tree)
      → t.recorded ≡ none
      → Truthful sha t (write_phase r s override warnings t)
  unfolding write_phase
  write_phase-Truthful override warnings sha t fresh =
      let (failing, landing, naming) = write_file-Truthful override warnings sha t fresh in
      let (failing', landing', naming') =
        write_file-Truthful override warnings sha (record t { has_context = true }) fresh in
      (
        (λ h. ground (arith, h, failing, failing')),
        (λ h. ground (arith, h, landing, landing')),
        λ h. ground (arith, h, naming, naming'),
      )

  truth_intro :
      (t : Tree) (x : Tree × Ending) (o : Option Outcome)
      → x.0.recorded ≡ o
      → ((sha : String) → Truthful sha t x)
      → TruthOf t o x.0
  truth_intro t x none is h = tt
  truth_intro t x (some outcome_unknown) is h = tt
  truth_intro t x (some outcome_failed) is h = (h "").0 is
  truth_intro t x (some (outcome_committed sha)) is h = ((h sha).1 is, (h sha).2 is)

  -- The claim tells the truth about the branch: after a write with a fresh claim, a recorded failure
  -- means that the branch has the commits that it had, and a recorded commit that the branch has one
  -- more, the postimage at the target, whose sha is the recorded one.
  pub commit_in_worktree-TruthOf :
      (t : Tree)
      → t.recorded ≡ none
      → TruthOf t (commit_in_worktree r s t).0.recorded (commit_in_worktree r s t).0
  unfolding commit_in_worktree
  commit_in_worktree-TruthOf t fresh = by_gates (gates r s)
    where
      by_gates :
          (g : Gated (Option String × List String))
          → TruthOf t (behind_gates r s g t).0.recorded (behind_gates r s g t).0
      by_gates (pass (override, warnings)) =
          truth_intro t (write_phase r s override warnings t) _ refl
            (λ sha. write_phase-Truthful override warnings sha t fresh)
      by_gates (stop e) = rw fresh tt
