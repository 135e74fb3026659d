-- ===== src/Gate/Unique.antt =====
-- write_gate.py and tools_write.py: the effective ids of a commit stay unique.
use data_olympus.Base.{
  if_both, String, Bool, true, false, str_eq-cases, Option, none, some, List, [], ◌∷◌, Dict, lookup,
  lookup-put, lookup-remove, ◌≡◌, ◌≢◌, ◌⊎◌, inl, inr, refl, sym, ◌∙◌, subst, arith, eq_iff,
  if◌then◌else◌, ◌==◌,
}
use data_olympus.Gate.Fronts.{Front, committed_tree, DocumentError, other_owner}
use data_olympus.Gate.Documents.{path_to_effective_id, is_concept, validate_postimage}
use data_olympus.Gate.Owners.{other_owner-none, valid_owner}
use data_olympus.Gate.Batch.{Among, check_ids_unique}
use data_olympus.Gate.Bundle.{
  File, BundleSite, BundleVerdict, admits, symlink_escape, already_onboarded, and_then, doc_id,
  check_ids, is_valid, check_file, check_files, transaction, scan_files, rule_files, bundle_gates,
  commit_file, committed_owners,
}

-- no two paths have one effective id, but for the empty one
abbrev pub UniqueIds : Dict String → Type 0
UniqueIds owners =
    (p q i : String) → i ≢ "" → lookup p owners ≡ some i → lookup q owners ≡ some i → p ≡ q

and_then_admits : (v w : BundleVerdict) → and_then v w ≡ admits → (v ≡ admits) × (w ≡ admits)
and_then_admits admits w h = (refl, h)
and_then_admits v w h = absurd cc

module _ (b : BundleSite) where
  abbrev Written : List File → String → String → Type 0
  Written fs p i = (f : File) × Among f fs × (f.target_path ≡ p) × (doc_id b f ≡ i)

  commit_file-lookup :
      (f : File) (owners : Dict String) (p i : String)
      → lookup p (commit_file b f owners) ≡ some i
      → ((f.target_path ≡ p) × (doc_id b f ≡ i)) ⊎ (lookup p owners ≡ some i)
  commit_file-lookup f owners p i =
      if_both Found (is_concept b.sources f.target_path) _ _
        (λ at. put_case (str_eq-cases f.target_path p) (sym (lookup-put _ p _ owners) ∙ at))
        (λ at. remove_case (str_eq-cases f.target_path p) (sym (lookup-remove _ p owners) ∙ at))
    where
      Goal : Type 0
      Goal = ((f.target_path ≡ p) × (doc_id b f ≡ i)) ⊎ (lookup p owners ≡ some i)

      Found : Dict String → Type 0
      Found m = lookup p m ≡ some i → Goal

      Apart : Type 0
      Apart = (f.target_path ≢ p) × ((f.target_path == p) ≡ false)

      put_case :
          (f.target_path ≡ p) ⊎ Apart
          → (if f.target_path == p then some (doc_id b f) else lookup p owners) ≡ some i
          → Goal
      put_case (inl same) at = inl (same, ground (arith, at, same, eq_iff f.target_path p))
      put_case (inr (_, other)) at = inr (ground (arith, at, other))

      remove_case :
          (f.target_path ≡ p) ⊎ Apart
          → (if f.target_path == p then none else lookup p owners) ≡ some i
          → Goal
      remove_case (inl same) at = ground (arith, at, same, eq_iff f.target_path p)
      remove_case (inr (_, other)) at = inr (ground (arith, at, other))

  -- an id of the commit is that of a written file, or it was there
  committed_from :
      (fs : List File) (owners : Dict String) (p i : String)
      → lookup p (committed_owners b fs owners) ≡ some i
      → Written fs p i ⊎ (lookup p owners ≡ some i)
  unfolding committed_owners
  committed_from [] owners p i at = inr at
  committed_from (f ∷ fs) owners p i at = elim (committed_from fs (commit_file b f owners) p i at) [
    | inl (g, among, path_is, id_is) ↦ inl (g, inr among, path_is, id_is)
    | inr was ↦ elim (commit_file-lookup f owners p i was) [
      | inl (path_is, id_is) ↦ inl (f, inl refl, path_is, id_is)
      | inr there ↦ inr there
    ]
  ]

  is_valid_admits :
      (o : Option (List DocumentError)) (p : String) → is_valid b o p ≡ admits → o ≡ some []
  is_valid_admits none p h = absurd cc
  is_valid_admits (some []) p h = refl
  is_valid_admits (some (e ∷ es)) p h = absurd cc

  past_tests :
      (x y : Bool) (p : String) (v : BundleVerdict)
      → (if x then symlink_escape p else (if y then already_onboarded p else v)) ≡ admits
      → v ≡ admits
  past_tests true y p v h = absurd cc
  past_tests false true p v h = absurd cc
  past_tests false false p v h = h

  file_valid :
      (ws : Dict String) (f : File)
      → check_file b ws f ≡ admits
      → validate_postimage b.sources f.target_path f.postimage b.snapshot ws ≡ some []
  unfolding check_file
  file_valid ws f h = is_valid_admits _ f.target_path (past_tests _ _ f.target_path _ h)

  module _ (ws : Dict String) (tree : Dict Front) (reads : b.snapshot ≡ committed_tree tree) where
    -- each file of a bundle that passes takes no id of another committed path
    check_files_owner :
        (fs : List File) (f : File)
        → check_files b ws fs ≡ admits
        → Among f fs
        → doc_id b f ≢ ""
        → other_owner (doc_id b f) f.target_path (path_to_effective_id b.sources tree) ≡ none
    unfolding check_files
    check_files_owner [] f h among proper = absurd among
    check_files_owner (g ∷ fs) f h (inl same) proper =
        let checked =
          file_valid ws f
            (subst (λ x. check_file b ws x ≡ admits) (sym same) (and_then_admits _ _ h).0) in
        valid_owner b.sources f.target_path tree ws f.postimage (b.sources.parse f.postimage) refl
          (subst (λ x. validate_postimage b.sources f.target_path f.postimage x ws ≡ some []) reads
            checked)
          proper
    check_files_owner (g ∷ fs) f h (inr among) proper =
        check_files_owner fs f (and_then_admits _ _ h).1 among proper

  -- The effective ids of a commit stay unique: where the committed tree is readable and no two of its
  -- paths have one effective id, no two have one after a bundle that the gates let pass is committed,
  -- its files written in order, new and existing ones. Empty ids, which are not checked, are left out,
  -- and so is a tree that cannot be read, which the gates pass over.
  pub bundle_gates-UniqueIds :
      (tree : Dict Front) (fs : List File)
      → b.snapshot ≡ committed_tree tree
      → UniqueIds (path_to_effective_id b.sources tree)
      → bundle_gates b fs ≡ admits
      → UniqueIds (committed_owners b fs (path_to_effective_id b.sources tree))
  unfolding bundle_gates
  bundle_gates-UniqueIds tree fs reads unique h p q i proper at_p at_q =
      elim (committed_from fs owners p i at_p) [
        | inl (f, f_in, f_path, f_id) ↦ elim (committed_from fs owners q i at_q) [
          | inl (g, g_in, g_path, g_id) ↦
              sym f_path
              ∙ check_ids_unique b [] fs f g ids f_in g_in (λ e. proper (sym f_id ∙ e))
                  (f_id ∙ sym g_id)
              ∙ g_path
          | inr was ↦ sym (own f f_in f_id q was ∙ f_path)
        ]
        | inr was ↦ elim (committed_from fs owners q i at_q) [
          | inl (g, g_in, g_path, g_id) ↦ own g g_in g_id p was ∙ g_path
          | inr was' ↦ unique p q i proper was was'
        ]
      ]
    where
      owners : Dict String
      owners = path_to_effective_id b.sources tree

      later : and_then (check_ids b [] fs) (check_files b (transaction b fs []) fs) ≡ admits
      later =
          (and_then_admits (if b.writing_rule_exempt then admits else rule_files b fs)
            (and_then (check_ids b [] fs) (check_files b (transaction b fs []) fs))
            (and_then_admits (scan_files b fs) _ h).1).1

      ids : check_ids b [] fs ≡ admits
      ids = (and_then_admits (check_ids b [] fs) (check_files b (transaction b fs []) fs) later).0

      own :
          (f : File)
          → Among f fs
          → doc_id b f ≡ i
          → (x : String) → lookup x owners ≡ some i
          → x ≡ f.target_path
      own f among is x at =
          other_owner-none i f.target_path owners x
            (subst (λ j. other_owner j f.target_path owners ≡ none) is
              (check_files_owner (transaction b fs []) tree reads fs f
                (and_then_admits (check_ids b [] fs) (check_files b (transaction b fs []) fs)
                  later).1
                among (λ e. proper (sym is ∙ e))))
            at
