-- ===== src/Tests/Search.antt =====
-- Runs of the query expansion (query_expansion.py).
use data_olympus.Base.{Dict, true, String, false, [], ◌∷◌, lookup, put, List, ◌≡◌, refl}
use data_olympus.Search.Synonyms.{
  Groups, append_all, without, fill_members, members_of, add_groups, build_synonym_map, join, take,
  windows, all_windows, add_terms, scan_keys, keys_of, expander,
}
use data_olympus.Search.Bounded.{Grown, synonyms_of, expander-Grown}
use data_olympus.Search.Distinct.{distinct, all_different}
use data_olympus.Search.Groups.{linked, share_group, build_synonym_map-linked}

abbrev lower : String → String
lower s = s

abbrev groups : Groups
groups = ("pr", "pull request" ∷ "merge" ∷ []) ∷ []

expands :
    expander lower (build_synonym_map lower groups) 2 5 ("pull" ∷ "request" ∷ "pull" ∷ [])
    ≡ "pull" ∷ "request" ∷ "pr" ∷ "merge" ∷ []
unfolding append_all without fill_members members_of add_groups build_synonym_map join take windows
    all_windows add_terms scan_keys keys_of expander lookup put
expands = refl

abbrev synonyms : Dict (List String)
synonyms = build_synonym_map lower groups

expander-Grown_example :
    Grown 5
      (synonyms_of lower synonyms 2 5
        (keys_of lower synonyms 2 5 ("pull" ∷ "request" ∷ "pull" ∷ [])))
      (distinct ("pull" ∷ "request" ∷ "pull" ∷ []))
      (expander lower synonyms 2 5 ("pull" ∷ "request" ∷ "pull" ∷ []))
    × (all_different (expander lower synonyms 2 5 ("pull" ∷ "request" ∷ "pull" ∷ [])) ≡ true)
expander-Grown_example = expander-Grown lower synonyms 2 5 ("pull" ∷ "request" ∷ "pull" ∷ [])

build_synonym_map-linked_example :
    (linked "pr" "merge" (build_synonym_map lower groups) ≡ share_group lower groups "pr" "merge")
    × (linked "merge" "pr" (build_synonym_map lower groups) ≡ share_group lower groups "pr" "merge")
    × (linked "pr" "pr" (build_synonym_map lower groups) ≡ false)
build_synonym_map-linked_example = build_synonym_map-linked lower groups "pr" "merge"
