-- ===== src/Write/Leftovers.antt =====
-- tools_write.py: what a write leaves staged in the worktree.
use data_olympus.Base.{String, true, false, Option, List, ◌≡◌, arith}
use data_olympus.Write.Answers.{
  WriteRequest, CommitEnd, exits_zero, declines, killed, unobserved, Site, Tree,
}
use data_olympus.Write.Gates.{Gated, pass, stop, gates}
use data_olympus.Write.Commit.{
  enqueue_after_commit, after_commit, after_landing, git_commit, write_file, write_phase,
  behind_gates, commit_in_worktree,
}

module _ (r : WriteRequest) (s : Site) (resets : s.reset_ok ≡ true) where
  git_commit-staged :
      (end : CommitEnd) (override : Option String) (warnings : List String) (t : Tree)
      → (git_commit r s end override warnings t).0.staged ≡ false
  unfolding git_commit after_landing after_commit enqueue_after_commit
  git_commit-staged exits_zero override warnings t = ground arith
  git_commit-staged declines override warnings t = ground arith
  git_commit-staged (killed landed) override warnings t = ground arith
  git_commit-staged (unobserved landed) override warnings t = ground arith

  write_file-staged :
      (override : Option String) (warnings : List String) (t : Tree)
      → t.staged ≡ false
      → (write_file r s override warnings t).0.staged ≡ false
  unfolding write_file
  write_file-staged override warnings t clean = ground (
    arith,
    git_commit-staged s.commit_end override warnings (record t { dirty = true; staged = true }),
  )

  write_phase-staged :
      (override : Option String) (warnings : List String) (t : Tree)
      → t.staged ≡ false
      → (write_phase r s override warnings t).0.staged ≡ false
  unfolding write_phase
  write_phase-staged override warnings t clean = ground (
    arith,
    write_file-staged override warnings t clean,
    write_file-staged override warnings (record t { has_context = true }) clean,
  )

  -- No write leaves anything staged for the next commit: however the write ends, with the gates, git
  -- and the file system behaving in any way, an index without staged changes has none afterwards,
  -- where `git reset` itself does not fail.
  pub commit_in_worktree-staged :
      (t : Tree) → t.staged ≡ false → (commit_in_worktree r s t).0.staged ≡ false
  unfolding commit_in_worktree
  commit_in_worktree-staged t clean = by_gates (gates r s)
    where
      by_gates : (g : Gated (Option String × List String)) → (behind_gates r s g t).0.staged ≡ false
      by_gates (pass (override, warnings)) = write_phase-staged override warnings t clean
      by_gates (stop e) = clean
