-- ===== src/Gate/Stale.antt =====
-- write_gate.py: `check_cas` against a description of its markers and of the content.
use data_olympus.Base.{
  ◌⊎◌, inl, inr, sym, ap, ◌∙◌, String, Bool, true, false, not, ◌&&◌, ◌||◌, Option, none, some, ◌≡◌,
  ◌≢◌, refl, arith, eq_iff, ◌==◌,
}
use data_olympus.Gate.Cas.{
  is_enforceable_base_commit, CasResult, is_given, text_of, current_blob, current_hash,
  check_commit, check_file_hash, check_cas,
}

abbrev pub is_ok : CasResult → Bool
is_ok none = true
is_ok (some s) = false

module _ (blob_sha sha256 : String → String) (commit_exists : String → Bool)
    (git_blob_at : String → String → String) where
  -- each marker that is given agrees with the current content
  abbrev pub agrees : Option String → String → Option String → Option String → Option String → Bool
  agrees current target_path base_commit base_blob_sha target_file_hash =
      (not (is_given base_blob_sha)
        || (current_blob blob_sha sha256 commit_exists git_blob_at current
            == text_of base_blob_sha))
      && ((not (is_given target_file_hash)
            || (current_hash blob_sha sha256 commit_exists git_blob_at current
                == text_of target_file_hash))
          && (not (is_enforceable_base_commit base_commit)
              || (commit_exists (text_of base_commit)
                  && (git_blob_at (text_of base_commit) target_path
                      == current_blob blob_sha sha256 commit_exists git_blob_at current))))

  -- The check passes exactly if every marker that the caller gave agrees with the current content:
  -- the blob id, the file hash, and, for a base commit other than HEAD, a commit that exists and has
  -- the current blob at the path.
  pub check_cas-agrees :
      (current : Option String) (target_path : String)
      (base_commit base_blob_sha target_file_hash : Option String)
      → is_ok (
          check_cas blob_sha sha256 commit_exists git_blob_at current target_path base_commit
            base_blob_sha target_file_hash)
        ≡ agrees current target_path base_commit base_blob_sha target_file_hash
  unfolding check_cas check_file_hash check_commit
  check_cas-agrees current target_path base_commit base_blob_sha target_file_hash = ground arith

  module _ (current : Option String) (target_path : String)
      (base_commit base_blob_sha target_file_hash : Option String) where
    -- the caller gave the blob id `b`, or a commit that has it at the path
    abbrev pub Marked : String → Type 0
    Marked b =
        (base_blob_sha ≡ some b)
        ⊎ ((is_enforceable_base_commit base_commit ≡ true)
            × (git_blob_at (text_of base_commit) target_path ≡ b))

    passed-blob :
        (b : String)
        → b ≢ ""
        → Marked b
        → agrees current target_path base_commit base_blob_sha target_file_hash ≡ true
        → current_blob blob_sha sha256 commit_exists git_blob_at current ≡ b
    passed-blob b there (inl is) passed =
        let same : (current_blob blob_sha sha256 commit_exists git_blob_at current == b) ≡ true =
          ground (arith, passed, is, eq_iff b "", there) in
        (eq_iff _ _).0 same
    passed-blob b there (inr (enforced, is)) passed =
        let same : (git_blob_at (text_of base_commit) target_path
              == current_blob blob_sha sha256 commit_exists git_blob_at current)
            ≡ true =
          ground (arith, passed, enforced) in
        sym ((eq_iff _ _).0 same) ∙ is

    blob_content :
        (old : String)
        → blob_sha old ≢ ""
        → ((c : String) → current ≡ some c → blob_sha c ≡ blob_sha old → c ≡ old)
        → (o : Option String) → current ≡ o
        → current_blob blob_sha sha256 commit_exists git_blob_at o ≡ blob_sha old
        → o ≡ some old
    unfolding current_blob
    blob_content old there same none is h = absurd (there (sym h))
    blob_content old there same (some c) is h = ap some (same c is h)

    -- No stale write passes: where the caller read the content `old` and gave its blob id, or a base
    -- commit other than HEAD that has this blob at the path, a passed check means that the target
    -- still has the content `old`. The blob id of `old` is not empty, and the current content does
    -- not collide with it.
    pub check_cas-current :
        (old : String)
        → blob_sha old ≢ ""
        → ((c : String) → current ≡ some c → blob_sha c ≡ blob_sha old → c ≡ old)
        → Marked (blob_sha old)
        → check_cas blob_sha sha256 commit_exists git_blob_at current target_path base_commit
            base_blob_sha target_file_hash
          ≡ none
        → current ≡ some old
    check_cas-current old there same marked passed =
        let agreed =
          sym (check_cas-agrees current target_path base_commit base_blob_sha target_file_hash)
          ∙ ap is_ok passed in
        blob_content old there same current refl (passed-blob (blob_sha old) there marked agreed)
