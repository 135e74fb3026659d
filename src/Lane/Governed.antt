-- ===== src/Lane/Governed.antt =====
-- governed_lane.py: `check_status_clamp`, `governed_target_state`, `is_base_content_in_force` and
-- `evaluate_governed_lane`. Parsed frontmatter, the index and the scan for injection patterns are
-- arguments: each read of the index may raise.
use data_olympus.Base.{
  ℕ, String, Bool, Option, none, some, List, [], ◌∷◌, str_mem, if◌then◌else◌, ◌==◌,
}
use data_olympus.Lane.Validity.{in_force_statuses, is_in_force}

-- What `parse_frontmatter` gives for a text: it raises, or a mapping whose `status` and validity
-- dates are `none` where they are absent or no text.
pub record Frontmatter : Type 0 where
  pub status : Option String
  pub valid_from : Option String
  pub valid_until : Option String

-- the status that is claimed into the in-force class
unfoldable pub check_status_clamp : Option Frontmatter → Option String
check_status_clamp none = none
check_status_clamp (some fm) = elim fm.status [
  | none ↦ none
  | some status ↦ if str_mem status in_force_statuses then some status else none
]

pub data TargetState : Type 0 where
  in_force not_in_force unknown : TargetState

pub record IndexedDoc : Type 0 where
  pub id : String
  pub status : String
  pub valid_from : Option String
  pub valid_until : Option String
  pub is_inbox : Bool

-- a read of the index: it raises, or returns
pub data Read {ℓ} (A : Type ℓ) : Type ℓ where
  raised : Read A
  returned : A → Read A

-- `id_to_path_map`, `none` where it answers no dictionary; `get`; `graph_excluded_ids`
pub record Index : Type 0 where
  pub id_to_path_map : Read (Option (List (String × String)))
  pub get : String → Read (Option IndexedDoc)
  pub graph_excluded_ids : Read (List String)

-- the first id that maps to the path
unfoldable pub id_of_path : String → List (String × String) → Option String
id_of_path target_path [] = none
id_of_path target_path ((i, p) ∷ rest) =
    if p == target_path then some i else id_of_path target_path rest

-- a failed exclusion lookup excludes nothing
abbrev pub excluded_ids : Read (List String) → List String
excluded_ids raised = []
excluded_ids (returned ids) = ids

unfoldable pub doc_state : Index → String → Read (Option IndexedDoc) → TargetState
doc_state idx today raised = unknown
doc_state idx today (returned none) = unknown
doc_state idx today (returned (some d)) =
    if str_mem d.id (excluded_ids idx.graph_excluded_ids)
    then not_in_force
    else if is_in_force d.status d.valid_from d.valid_until today d.is_inbox
    then in_force
    else not_in_force

unfoldable pub map_state :
    Index → String → String → Read (Option (List (String × String))) → TargetState
map_state idx target_path today raised = unknown
map_state idx target_path today (returned none) = unknown
map_state idx target_path today (returned (some ids)) = elim (id_of_path target_path ids) [
  | none ↦ not_in_force
  | some i ↦ doc_state idx today (idx.get i)
]

unfoldable pub governed_target_state : Option Index → String → String → TargetState
governed_target_state none target_path today = unknown
governed_target_state (some idx) target_path today =
    map_state idx target_path today idx.id_to_path_map

-- an empty date is no date
abbrev or_none : Option String → Option String
or_none none = none
or_none (some s) = if s == "" then none else some s

abbrev or_empty : Option String → String
or_empty none = ""
or_empty (some s) = s

-- `is_inbox` is `is_inbox_path(target_path)`
unfoldable pub is_base_content_in_force : Option Frontmatter → String → Bool → Bool
is_base_content_in_force none today is_inbox = is_in_force "" none none today is_inbox
is_base_content_in_force (some fm) today is_inbox =
    is_in_force (or_empty fm.status) (or_none fm.valid_from) (or_none fm.valid_until) today is_inbox

pub data Demotion : Type 0 where
  status_promotion governed_target governed_target_unverified : Demotion

pub record Verdict : Type 0 where
  pub demotion_reason : Option Demotion
  pub injection_matches : List (String × ℕ)

abbrev pub demotion_of : TargetState → Option Demotion
demotion_of in_force = some governed_target
demotion_of unknown = some governed_target_unverified
demotion_of not_in_force = none

unfoldable pub evaluate_governed_lane :
    Option Frontmatter → List (String × ℕ) → String → Option Index → Bool → String → Verdict
evaluate_governed_lane postimage matches target_path idx check_governed_target today =
    elim (check_status_clamp postimage) [
      | some status ↦ record {
        demotion_reason = some status_promotion;
        injection_matches = matches;
      }
      | none ↦
          if check_governed_target
          then record {
            demotion_reason = demotion_of (governed_target_state idx target_path today);
            injection_matches = matches;
          }
          else record { demotion_reason = none; injection_matches = matches }
    ]
