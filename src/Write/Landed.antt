-- ===== src/Write/Landed.antt =====
-- tools_write.py: what the end of `_commit_in_worktree` says of the worktree and of the claim.
use data_olympus.Base.{String, true, false, Option, List, [], ◌∷◌, ◌++◌, ◌≡◌, refl, arith}
use data_olympus.Write.Answers.{
  WriteRequest, CommitEnd, exits_zero, declines, killed, unobserved, Site, Rejection, Ending,
  rejected, Tree,
}
use data_olympus.Write.Gates.{Gated, pass, stop, gates}
use data_olympus.Write.Commit.{
  enqueue_after_commit, after_commit, after_landing, git_commit, write_file, write_phase,
  behind_gates, commit_in_worktree,
}

module _ (r : WriteRequest) (s : Site) (t0 : Tree) where
  -- A consumed claim comes with one commit of the postimage.
  abbrev Consumed : Tree × Ending → Type 0
  Consumed x = x.0.finalized ≡ true → x.0.commits ≡ t0.commits ++ r.postimage ∷ []

  -- only a gate rejects
  abbrev Unrejected : Tree × Ending → Type 0
  Unrejected x = (why : Rejection) → x.1 ≡ rejected why → x.0 ≡ t0

  abbrev Ended : Tree × Ending → Type 0
  Ended x = Consumed x × Unrejected x

  git_commit-Ended :
      (end : CommitEnd) (override : Option String) (warnings : List String) (t : Tree)
      → t.finalized ≡ false
      → t.commits ≡ t0.commits
      → Ended (git_commit r s end override warnings t)
  unfolding git_commit after_landing after_commit enqueue_after_commit
  git_commit-Ended exits_zero override warnings t unused same =
      ((λ h. ground (arith, h, unused, same)), λ why h. ground (arith, h))
  git_commit-Ended declines override warnings t unused same =
      ((λ h. ground (arith, h, unused, same)), λ why h. ground (arith, h))
  git_commit-Ended (killed landed) override warnings t unused same =
      ((λ h. ground (arith, h, unused, same)), λ why h. ground (arith, h))
  git_commit-Ended (unobserved landed) override warnings t unused same =
      ((λ h. ground (arith, h, unused, same)), λ why h. ground (arith, h))

  write_file-Ended :
      (override : Option String) (warnings : List String) (t : Tree)
      → t.finalized ≡ false
      → t.commits ≡ t0.commits
      → Ended (write_file r s override warnings t)
  unfolding write_file
  write_file-Ended override warnings t unused same =
      let committing =
        git_commit-Ended s.commit_end override warnings (record t { dirty = true; staged = true })
          unused same in
      ((λ h. ground (arith, h, unused, committing.0)), λ why h. ground (arith, h, committing.1 why))

  write_phase-Ended :
      (override : Option String) (warnings : List String)
      → t0.finalized ≡ false
      → Ended (write_phase r s override warnings t0)
  unfolding write_phase
  write_phase-Ended override warnings unused =
      let plain = write_file-Ended override warnings t0 unused refl in
      let noting =
        write_file-Ended override warnings (record t0 { has_context = true }) unused refl in
      (
        (λ h. ground (arith, h, unused, plain.0, noting.0)),
        λ why h. ground (arith, h, plain.1 why, noting.1 why),
      )

  -- A write with an open claim that consumes it has made one commit of the postimage; one that a
  -- gate rejects has left the worktree and the claim as they were.
  pub commit_in_worktree-Ended : t0.finalized ≡ false → Ended (commit_in_worktree r s t0)
  unfolding commit_in_worktree
  commit_in_worktree-Ended unused = by_gates (gates r s)
    where
      by_gates : (g : Gated (Option String × List String)) → Ended (behind_gates r s g t0)
      by_gates (pass (override, warnings)) = write_phase-Ended override warnings unused
      by_gates (stop e) = ((λ h. ground (arith, h, unused)), λ why h. refl)
