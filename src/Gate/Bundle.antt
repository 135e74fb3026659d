-- ===== src/Gate/Bundle.antt =====
-- tools_write.py: the gates of `commit_multifile_in_worktree`, in their order, and the concept files
-- of the commit that it makes behind them.
use data_olympus.Base.{
  String, Bool, false, not, ◌&&◌, Option, none, some, List, [], ◌∷◌, Dict, lookup, put, remove,
  if◌then◌else◌, ◌==◌,
}
use data_olympus.Gate.Fronts.{Snapshot, DocumentError, Sources, front_of}
use data_olympus.Gate.Documents.{effective_doc_id, is_concept, validate_postimage}

pub record File : Type 0 where
  pub target_path : String
  pub postimage : String

-- What the gates ask: the secret scan, `_writing_rule_gate`, `safe_join_under_root` and
-- `os.path.lexists`, with the arguments of the call.
pub record BundleSite : Type 0 where
  pub sources : Sources
  pub snapshot : Snapshot
  pub secret_in : String → Option String
  pub rules_pass : String → String → Bool
  pub is_contained : String → Bool
  pub lexists : String → Bool
  pub writing_rule_exempt : Bool
  pub new_files_only : Bool

-- the gates let the bundle pass, or raise for a file of it
pub data BundleVerdict : Type 0 where
  admits raises_fault : BundleVerdict
  secret_in_path secret_in_text rule_broken : String → BundleVerdict
  symlink_escape already_onboarded invalid_document : String → BundleVerdict
  same_id : String → String → BundleVerdict

abbrev pub and_then : BundleVerdict → BundleVerdict → BundleVerdict
and_then admits next = next
and_then stop _ = stop

abbrev pub unless_found : Option String → BundleVerdict → BundleVerdict
unless_found none stop = admits
unless_found (some name) stop = stop

module _ (b : BundleSite) where
  unfoldable pub scan_files : List File → BundleVerdict
  scan_files [] = admits
  scan_files (f ∷ fs) =
      let rest = scan_files fs in
      and_then (unless_found (b.secret_in f.target_path) (secret_in_path f.target_path))
        (and_then (unless_found (b.secret_in f.postimage) (secret_in_text f.target_path)) rest)

  unfoldable pub rule_files : List File → BundleVerdict
  rule_files [] = admits
  rule_files (f ∷ fs) =
      let rest = rule_files fs in
      if b.is_contained f.target_path && not (b.rules_pass f.target_path f.postimage)
      then rule_broken f.target_path
      else rest

  abbrev pub doc_id : File → String
  doc_id f = effective_doc_id b.sources (front_of (b.sources.parse f.postimage)) f.target_path

  abbrev pub is_other : Option String → String → Bool
  is_other none path = false
  is_other (some p) path = not (p == path)

  -- `seen_ids`
  abbrev pub remember : File → Dict String → Dict String
  remember f seen = if doc_id f == "" then seen else put (doc_id f) f.target_path seen

  unfoldable pub check_ids : Dict String → List File → BundleVerdict
  check_ids seen [] = admits
  check_ids seen (f ∷ fs) =
      let rest = check_ids (remember f seen) fs in
      if not (doc_id f == "") && is_other (lookup (doc_id f) seen) f.target_path
      then same_id (doc_id f) f.target_path
      else rest

  -- the postimages by path, the last one of a path
  unfoldable pub transaction : List File → Dict String → Dict String
  transaction [] ws = ws
  transaction (f ∷ fs) ws = transaction fs (put f.target_path f.postimage ws)

  abbrev pub is_valid : Option (List DocumentError) → String → BundleVerdict
  is_valid none path = raises_fault
  is_valid (some []) path = admits
  is_valid (some (e ∷ es)) path = invalid_document path

  unfoldable pub check_file : Dict String → File → BundleVerdict
  check_file ws f =
      if not (b.is_contained f.target_path)
      then symlink_escape f.target_path
      else if b.new_files_only && b.lexists f.target_path
      then already_onboarded f.target_path
      else is_valid (validate_postimage b.sources f.target_path f.postimage b.snapshot ws)
          f.target_path

  unfoldable pub check_files : Dict String → List File → BundleVerdict
  check_files ws [] = admits
  check_files ws (f ∷ fs) = let rest = check_files ws fs in and_then (check_file ws f) rest

  unfoldable pub bundle_gates : List File → BundleVerdict
  bundle_gates fs = and_then (scan_files fs) (
      and_then (if b.writing_rule_exempt then admits else rule_files fs)
        (and_then (check_ids [] fs) (check_files (transaction fs []) fs)))

  -- The effective ids by path after the files are written and committed, in order.
  abbrev pub commit_file : File → Dict String → Dict String
  commit_file f owners =
      if is_concept b.sources f.target_path
      then put f.target_path (doc_id f) owners
      else remove f.target_path owners

  unfoldable pub committed_owners : List File → Dict String → Dict String
  committed_owners [] owners = owners
  committed_owners (f ∷ fs) owners = committed_owners fs (commit_file f owners)
