-- ===== src/Tests/Documents.antt =====
-- Runs of the content gate and of a bundle (write_gate.py, tools_write.py).
use data_olympus.Base.{
  String, true, false, Option, none, some, List, [], ◌∷◌, lookup, put, remove, str_mem, Dict, ◌≡◌,
  ◌⊎◌, refl, arith, eq_iff, if◌then◌else◌, ◌==◌,
}
use data_olympus.Access.Paths.{ends_with, is_blank}
use data_olympus.Pending.Queue.{is_space}
use data_olympus.Gate.Fronts.{
  Field, supersedes, superseded_by, derived_from, Authored, one_id, Front, blank, worded,
  committed_tree, Sources, has_colon, any_blank, relationship_targets, new_targets, added_of,
  unresolved_errors, values, other_owner, known_targets,
}
use data_olympus.Gate.Documents.{
  effective_doc_id, path_to_effective_id, parsed_writes, write_owners, result_owners, malformed_of,
  relation_errors, supersession_errors, schema_errors, target_path_exists, status_errors,
  index_collision, duplicate_errors, validate_postimage,
}
use data_olympus.Gate.Bundle.{
  File, BundleSite, admits, scan_files, rule_files, check_ids, transaction, check_file, check_files,
  bundle_gates, committed_owners,
}
use data_olympus.Gate.Unique.{UniqueIds, bundle_gates-UniqueIds}
use data_olympus.Gate.References.{preimage, members, validate_postimage-resolves}

abbrev active : Front
active = record blank { status = worded "active" }

-- the text "new" supersedes what "more" creates
abbrev relations : Field → Option Authored
relations supersedes = some (one_id "more")
relations superseded_by = none
relations derived_from = none

abbrev newer : Front
newer = record active { relation = relations }

abbrev read_text : String → Option Front
read_text text = if text == "new" then some newer else some active

abbrev sources : Sources
sources = record {
  parse = read_text;
  derive_id_from_path = λ p. if p == "b.md" then "more" else p;
  is_excluded = λ p. false;
  file_name = λ p. p;
  is_inbox = λ p. false;
  strict_equal = λ a b. false;
  index = [];
  is_file = λ p. false;
}

abbrev tree : Dict Front
tree = ("old.md", active) ∷ []

abbrev bundle_site : BundleSite
bundle_site = record {
  sources = sources;
  snapshot = committed_tree tree;
  secret_in = λ s. none;
  rules_pass = λ p s. true;
  is_contained = λ p. true;
  lexists = λ p. false;
  writing_rule_exempt = false;
  new_files_only = true;
}

abbrev bundle : List File
bundle =
    (record { target_path = "a.md"; postimage = "new" })
    ∷ (record { target_path = "b.md"; postimage = "text" })
    ∷ []

abbrev texts : Dict String
texts = ("a.md", "new") ∷ ("b.md", "text") ∷ []

passes : bundle_gates bundle_site bundle ≡ admits
unfolding bundle_gates scan_files rule_files check_ids effective_doc_id has_colon check_files
    transaction check_file validate_postimage schema_errors status_errors target_path_exists
    duplicate_errors index_collision other_owner path_to_effective_id supersession_errors
    relation_errors malformed_of added_of relationship_targets any_blank is_blank new_targets
    unresolved_errors result_owners write_owners parsed_writes values lookup put remove ends_with
    is_space
passes = refl

unique : UniqueIds (path_to_effective_id sources tree)
unfolding path_to_effective_id effective_doc_id lookup
unique p q i proper at_p at_q = ground (arith, eq_iff "old.md" p, eq_iff "old.md" q)

bundle_gates-UniqueIds_example :
    UniqueIds (committed_owners bundle_site bundle (path_to_effective_id sources tree))
bundle_gates-UniqueIds_example = bundle_gates-UniqueIds bundle_site tree bundle refl unique passes

valid : validate_postimage sources "a.md" "new" (committed_tree tree) texts ≡ some []
unfolding effective_doc_id has_colon validate_postimage schema_errors status_errors
    target_path_exists duplicate_errors index_collision other_owner path_to_effective_id
    supersession_errors relation_errors malformed_of added_of relationship_targets any_blank
    is_blank new_targets unresolved_errors result_owners write_owners parsed_writes values lookup
    put remove ends_with is_space
valid = refl

targets : relationship_targets supersedes (one_id "more") ≡ some ("more" ∷ [])
unfolding relationship_targets any_blank is_blank is_space
targets = refl

validate_postimage-resolves_example :
    (str_mem "more"
        (known_targets supersedes ((preimage sources "a.md" newer tree texts).relation supersedes))
      ≡ true)
    ⊎ (str_mem "more" (members sources "a.md" newer tree texts) ≡ true)
validate_postimage-resolves_example =
    validate_postimage-resolves sources "a.md" newer tree texts "new" supersedes (one_id "more")
      ("more" ∷ []) "more" refl refl valid refl targets refl
