-- ===== src/Gate/Cas.antt =====
-- write_gate.py: `_is_enforceable_base_commit` and `check_cas`. Contents are texts, and a target
-- that is no file has none. The digests and git's answers are arguments: `blob_sha` is the object id
-- that git gives a content, `commit_exists` and `git_blob_at` ask git, which answers "" for a path
-- that the commit lacks.
use Prim.Native.Char.{code}
use Prim.Native.String.{[], ◌∷◌}
use data_olympus.Base.{
  ℕ, ◌+◌, String, Bool, true, false, not, ◌&&◌, ◌||◌, Option, none, some, List, eqb, if◌then◌else◌,
  ◌==◌,
}
use data_olympus.Pending.Queue.{strip}

-- `s.upper() == "HEAD"`: no character but these letters has them as its upper case
is_spelled : List ℕ → String → Bool
is_spelled List.[] [] = true
is_spelled List.[] (c ∷ s) = false
is_spelled (List.◌∷◌ u us) [] = false
is_spelled (List.◌∷◌ u us) (c ∷ s) = (eqb (code c) u || eqb (code c) (u + 32)) && is_spelled us s

head_letters : List ℕ
head_letters = List.◌∷◌ b'H' (List.◌∷◌ b'E' (List.◌∷◌ b'A' (List.◌∷◌ b'D' List.[])))

unfoldable pub is_enforceable_base_commit : Option String → Bool
unfolding is_spelled head_letters
is_enforceable_base_commit none = false
is_enforceable_base_commit (some s) =
    if s == "" then false else not (is_spelled head_letters (strip s))

pub data Stale : Type 0 where
  blob_mismatch file_hash_mismatch commit_unknown commit_mismatch : Stale

-- `none` is `ok=True`
abbrev pub CasResult : Type 0
CasResult = Option Stale

abbrev pub is_given : Option String → Bool
is_given none = false
is_given (some s) = not (s == "")

abbrev pub text_of : Option String → String
text_of none = ""
text_of (some s) = s

module _ (blob_sha sha256 : String → String) (commit_exists : String → Bool)
    (git_blob_at : String → String → String) where
  unfoldable pub current_blob : Option String → String
  current_blob none = ""
  current_blob (some content) = blob_sha content

  unfoldable pub current_hash : Option String → String
  current_hash none = ""
  current_hash (some content) = sha256 content

  unfoldable pub check_commit : Option String → String → Option String → CasResult
  check_commit current target_path base_commit =
      if not (is_enforceable_base_commit base_commit)
      then none
      else if not (commit_exists (text_of base_commit))
      then some commit_unknown
      else if not (git_blob_at (text_of base_commit) target_path == current_blob current)
      then some commit_mismatch
      else none

  unfoldable pub check_file_hash :
      Option String → String → Option String → Option String → CasResult
  check_file_hash current target_path base_commit target_file_hash =
      if is_given target_file_hash && not (current_hash current == text_of target_file_hash)
      then some file_hash_mismatch
      else check_commit current target_path base_commit

  -- `current` is the target's content in the worktree
  unfoldable pub check_cas :
      Option String → String → Option String → Option String → Option String → CasResult
  check_cas current target_path base_commit base_blob_sha target_file_hash =
      if not (is_given base_blob_sha)
        && not (is_given target_file_hash)
        && not (is_enforceable_base_commit base_commit)
      then none
      else if is_given base_blob_sha && not (current_blob current == text_of base_blob_sha)
      then some blob_mismatch
      else check_file_hash current target_path base_commit target_file_hash
