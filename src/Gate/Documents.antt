-- ===== src/Gate/Documents.antt =====
-- write_gate.py: `_effective_doc_id`, `_supersession_errors` and `validate_postimage`. The YAML
-- parser, `Path`, the inbox test, `_derive_id_from_path`, `_is_excluded` and `_strict_equal` are
-- arguments.
use data_olympus.Base.{
  String, Bool, not, ◌&&◌, ◌||◌, Option, none, some, List, ◌++◌, Dict, lookup, put, remove, str_mem,
  if◌then◌else◌, ◌==◌,
}
use data_olympus.Access.Paths.{ends_with}
use data_olympus.Gate.Fronts.{
  Field, Authored, Front, Snapshot, DocumentError, Sources, reserved, types, write_statuses, tiers,
  has_colon, relationship_targets, added_of, unresolved_errors, values, other_owner, front_of,
  enum_errors, both_errors, is_absent, collision_of, first_present, supersedes, superseded_by,
  derived_from, not_asked, unavailable, committed_tree, invalid_frontmatter, missing_status,
  malformed, unverifiable,
}

module _ (s : Sources) where
  unfoldable pub effective_doc_id : Front → String → String
  effective_doc_id fm path = elim fm.id [
    | none ↦ s.derive_id_from_path path
    | some raw ↦ if raw == "" || has_colon raw then s.derive_id_from_path path else raw
  ]

  -- `CommitSnapshot.path_to_effective_id`
  unfoldable pub path_to_effective_id : Dict Front → Dict String
  path_to_effective_id List.[] = List.[]
  path_to_effective_id (List.◌∷◌ (p, fm) tree) =
      List.◌∷◌ (p, effective_doc_id fm p) (path_to_effective_id tree)

  -- the frontmatter of each text of the transaction
  unfoldable pub parsed_writes : Dict String → Dict Front
  parsed_writes List.[] = List.[]
  parsed_writes (List.◌∷◌ (p, text) ws) = List.◌∷◌ (p, front_of (s.parse text)) (parsed_writes ws)

  abbrev pub is_concept : String → Bool
  is_concept path = ends_with ".md" path && not (s.is_excluded path)

  unfoldable pub write_owners : Dict Front → Dict String → Dict String
  write_owners List.[] owners = owners
  write_owners (List.◌∷◌ (p, fm) ws) owners =
      write_owners ws
        (if is_concept p then put p (effective_doc_id fm p) owners else remove p owners)

  -- the effective ids by path in the commit that is being made
  unfoldable pub result_owners : Dict Front → String → Front → Dict String → Dict String
  result_owners tree path fm transaction =
      write_owners (put path fm (parsed_writes transaction)) (path_to_effective_id tree)

  -- a malformed value passes where the preimage has the same
  unfoldable pub malformed_of : Field → Option Authored → Option Authored → List DocumentError
  malformed_of f pre none = List.[]
  malformed_of f pre (some post) = elim (relationship_targets f post) [
    | some ts ↦ List.[]
    | none ↦ elim pre [
      | none ↦ List.◌∷◌ (malformed f) List.[]
      | some a ↦ if s.strict_equal post a then List.[] else List.◌∷◌ (malformed f) List.[]
    ]
  ]

  unfoldable pub relation_errors : Front → String → Dict Front → Dict String → List DocumentError
  relation_errors fm path tree transaction =
      let pre = front_of (lookup path tree) in
      let malformed_in = λ (f : Field). malformed_of f (pre.relation f) (fm.relation f) in
      let added_in = λ (f : Field). added_of f (pre.relation f) (fm.relation f) in
      (malformed_in supersedes ++ malformed_in superseded_by ++ malformed_in derived_from)
      ++ unresolved_errors (added_in supersedes ++ added_in superseded_by ++ added_in derived_from)
          (values (result_owners tree path fm transaction))

  unfoldable pub supersession_errors : Front → String → Snapshot → Dict String → List DocumentError
  supersession_errors fm path not_asked transaction = List.[]
  supersession_errors fm path unavailable transaction = elim (first_present fm.relation) [
    | none ↦ List.[]
    | some f ↦ List.◌∷◌ (unverifiable f) List.[]
  ]
  supersession_errors fm path (committed_tree tree) transaction =
      relation_errors fm path tree transaction

  abbrev pub is_reserved : String → Bool
  is_reserved path = str_mem (s.file_name path) reserved

  unfoldable pub schema_errors : Front → Option (List DocumentError)
  schema_errors fm = both_errors (enum_errors "type" types fm.type) (
      both_errors (enum_errors "status" write_statuses fm.status)
        (enum_errors "tier" tiers fm.tier))

  unfoldable pub target_path_exists : String → Bool
  target_path_exists path = str_mem path (values s.index) || s.is_file path

  unfoldable pub status_errors : Front → String → List DocumentError
  status_errors fm path =
      if not (is_reserved path)
        && not (s.is_inbox path)
        && is_absent fm.status
        && not (target_path_exists path)
      then List.◌∷◌ missing_status List.[]
      else List.[]

  unfoldable pub index_collision : String → String → Option String
  index_collision eid path = elim (lookup eid s.index) [
    | none ↦ none
    | some other ↦ if other == path then none else some other
  ]

  abbrev pub tree_collision : String → String → Snapshot → Option String
  tree_collision eid path not_asked = none
  tree_collision eid path unavailable = none
  tree_collision eid path (committed_tree tree) = other_owner eid path (path_to_effective_id tree)

  unfoldable pub duplicate_errors : Front → String → Snapshot → List DocumentError
  duplicate_errors fm path snapshot =
      let eid = effective_doc_id fm path in
      if eid == ""
      then List.[]
      else collision_of (index_collision eid path) (tree_collision eid path snapshot)

  abbrev pub all_errors :
      Option (List DocumentError)
      → Front
      → String
      → Snapshot
      → Dict String
      → Option (List DocumentError)
  all_errors none fm path snapshot transaction = none
  all_errors (some es) fm path snapshot transaction = some (
      es
      ++ status_errors fm path
      ++ duplicate_errors fm path snapshot
      ++ (if is_reserved path then List.[] else supersession_errors fm path snapshot transaction))

  abbrev pub judged : Option Front → String → Snapshot → Dict String → Option (List DocumentError)
  judged none path snapshot transaction = some (List.◌∷◌ invalid_frontmatter List.[])
  judged (some fm) path snapshot transaction =
      all_errors (if is_reserved path then some List.[] else schema_errors fm) fm path snapshot
        transaction

  -- the errors, none of them where the document is valid; no list where the gate itself raises
  unfoldable pub validate_postimage :
      String → String → Snapshot → Dict String → Option (List DocumentError)
  validate_postimage path postimage snapshot transaction =
      judged (s.parse postimage) path snapshot transaction
