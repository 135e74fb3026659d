-- ===== src/Lane/FailClosed.antt =====
-- governed_lane.py: what a write that `evaluate_governed_lane` does not demote rests on.
use data_olympus.Base.{
  ℕ, String, true, false, Option, none, some, List, str_mem, ◌≡◌, ◌≢◌, ◌⊎◌, refl, arith,
}
use data_olympus.Lane.Validity.{is_in_force}
use data_olympus.Lane.Governed.{
  Frontmatter, check_status_clamp, TargetState, in_force, not_in_force, unknown, IndexedDoc, Read,
  raised, returned, Index, id_of_path, excluded_ids, doc_state, map_state, governed_target_state,
  status_promotion, demotion_of, evaluate_governed_lane,
}

module _ (target_path today : String) (idx : Index) where
  -- the document was read, and it is excluded or not in force
  abbrev pub DocClears : Read (Option IndexedDoc) → Type 0
  DocClears raised = ⊥
  DocClears (returned none) = ⊥
  DocClears (returned (some d)) =
      (str_mem d.id (excluded_ids idx.graph_excluded_ids) ≡ true)
      ⊎ (is_in_force d.status d.valid_from d.valid_until today d.is_inbox ≡ false)

  abbrev pub IdClears : Option String → Type 0
  IdClears none = Unit
  IdClears (some i) = DocClears (idx.get i)

  -- the map was read, and the path is in it for no id, or for one whose document clears
  abbrev pub MapClears : Read (Option (List (String × String))) → Type 0
  MapClears raised = ⊥
  MapClears (returned none) = ⊥
  MapClears (returned (some ids)) = IdClears (id_of_path target_path ids)

  doc_clears : (r : Read (Option IndexedDoc)) → doc_state idx today r ≡ not_in_force → DocClears r
  unfolding doc_state
  doc_clears raised h = cc
  doc_clears (returned none) h = cc
  doc_clears (returned (some d)) h = ground arith

  map_clears :
      (r : Read (Option (List (String × String))))
      → map_state idx target_path today r ≡ not_in_force
      → MapClears r
  unfolding map_state
  map_clears raised h = cc
  map_clears (returned none) h = cc
  map_clears (returned (some ids)) h = by_id (id_of_path target_path ids) h
    where
      by_id :
          (o : Option String)
          → (elim o [ none ↦ not_in_force | some i ↦ doc_state idx today (idx.get i) ])
            ≡ not_in_force
          → IdClears o
      by_id none h = tt
      by_id (some i) h = doc_clears (idx.get i) h

abbrev pub IndexClears : Option Index → String → String → Type 0
IndexClears none target_path today = ⊥
IndexClears (some idx) target_path today = MapClears target_path today idx idx.id_to_path_map

-- only a target that is not in force demotes nothing
demotion_of-none : (s : TargetState) → demotion_of s ≡ none → s ≡ not_in_force
demotion_of-none in_force h = cc
demotion_of-none unknown h = cc
demotion_of-none not_in_force h = refl

no_promotion : some status_promotion ≢ none
no_promotion h = cc

index_clears :
    (idx : Option Index) (target_path today : String)
    → governed_target_state idx target_path today ≡ not_in_force
    → IndexClears idx target_path today
unfolding governed_target_state
index_clears none target_path today s = cc
index_clears (some i) target_path today s = map_clears target_path today i i.id_to_path_map s

-- An edit that is not demoted claimed no in-force status, and an index was there, its path map was
-- read, and it has the path for no id, or for an id whose document was read and is excluded by the
-- graph or not in force. So no failed read, and no target that is in force, lets an edit pass.
pub undemoted_verified :
    (postimage : Option Frontmatter) (matches : List (String × ℕ)) (target_path : String)
    (idx : Option Index) (today : String)
    → (evaluate_governed_lane postimage matches target_path idx true today).demotion_reason ≡ none
    → (check_status_clamp postimage ≡ none) × IndexClears idx target_path today
unfolding evaluate_governed_lane
undemoted_verified postimage matches target_path idx today h =
    by_clamp (check_status_clamp postimage) refl
  where
    by_clamp :
        (c : Option String)
        → check_status_clamp postimage ≡ c
        → (check_status_clamp postimage ≡ none) × IndexClears idx target_path today
    by_clamp none is = (
      is,
      index_clears idx target_path today
          (demotion_of-none _ (rw (is, evaluate_governed_lane) at h)),
    )
    by_clamp (some s) is = absurd (no_promotion (rw (is, evaluate_governed_lane) at h))
