-- ===== src/Gate/Fronts.antt =====
-- write_gate.py: what the content gate reads, and the parts of it that ask for nothing else. A
-- document's frontmatter is the keys that the gate looks at.
use Prim.Native.String.{[], ◌∷◌}
use data_olympus.Base.{
  String, Bool, true, false, not, ◌&&◌, ◌||◌, Option, none, some, List, ◌++◌, Dict, str_mem,
  if◌then◌else◌, ◌==◌,
}
use data_olympus.Access.Paths.{is_blank, is_char}

pub data Field : Type 0 where
  supersedes superseded_by derived_from : Field

-- a relationship as authored: an id, a list of ids, or anything else, by its text
pub data Authored : Type 0 where
  one_id : String → Authored
  id_list : List String → Authored
  misshapen : String → Authored

-- the value of `type`, `status` or `tier`: absent or null, a text, another value that can be looked up
-- in a set, or a list or mapping, which cannot
pub data EnumValue : Type 0 where
  absent other_value unhashable : EnumValue
  worded : String → EnumValue

-- the keys of the frontmatter that the gate reads; `id` is none where it is no text
pub record Front : Type 0 where
  pub id : Option String
  pub type : EnumValue
  pub status : EnumValue
  pub tier : EnumValue
  pub relation : Field → Option Authored

-- `{}`
abbrev pub blank : Front
blank = record { id = none; type = absent; status = absent; tier = absent; relation = λ f. none }

-- the committed tree: not asked for, not readable, or its concept files
pub data Snapshot : Type 0 where
  not_asked unavailable : Snapshot
  committed_tree : Dict Front → Snapshot

pub data DocumentError : Type 0 where
  invalid_frontmatter missing_status : DocumentError
  invalid_enum duplicate_id : String → DocumentError
  malformed unverifiable : Field → DocumentError
  unresolved : Field → String → DocumentError

-- What the gate calls and reads. `index` is `{}` where there is no index or its read fails.
pub record Sources : Type 0 where
  pub parse : String → Option Front
  pub derive_id_from_path : String → String
  pub is_excluded : String → Bool
  pub file_name : String → String
  pub is_inbox : String → Bool
  pub strict_equal : Authored → Authored → Bool
  pub index : Dict String
  pub is_file : String → Bool

abbrev pub reserved : List String
reserved = List.◌∷◌ "index.md" (List.◌∷◌ "log.md" (List.◌∷◌ "template.md" List.[]))

abbrev pub types : List String
types = List.◌∷◌ "standard" (
    List.◌∷◌ "decision"
      (List.◌∷◌ "workflow" (List.◌∷◌ "project" (List.◌∷◌ "memory" (List.◌∷◌ "reference" List.[])))))

abbrev pub write_statuses : List String
write_statuses = List.◌∷◌ "draft" (
    List.◌∷◌ "active" (
      List.◌∷◌ "deprecated" (
        List.◌∷◌ "superseded" (
          List.◌∷◌ "proposed"
            (List.◌∷◌ "accepted" (List.◌∷◌ "rejected" (List.◌∷◌ "approved" List.[])))))))

abbrev pub tiers : List String
tiers = List.◌∷◌ "T1" (List.◌∷◌ "T2" (List.◌∷◌ "T3" (List.◌∷◌ "T4" (List.◌∷◌ "meta" List.[]))))

-- `":" in raw`
unfoldable pub has_colon : String → Bool
has_colon [] = false
has_colon (c ∷ s) = is_char c ":" || has_colon s

-- the targets as authored, none where the shape is malformed
abbrev pub takes_list : Field → Bool
takes_list supersedes = true
takes_list superseded_by = false
takes_list derived_from = true

unfoldable pub any_blank : List String → Bool
any_blank List.[] = false
any_blank (List.◌∷◌ v vs) = is_blank v || any_blank vs

abbrev pub checked_targets : List String → Option (List String)
checked_targets items = if any_blank items then none else some items

unfoldable pub relationship_targets : Field → Authored → Option (List String)
relationship_targets f (one_id v) = checked_targets (List.◌∷◌ v List.[])
relationship_targets f (id_list vs) = if takes_list f then checked_targets vs else none
relationship_targets f (misshapen text) = none

abbrev pub or_empty : Option (List String) → List String
or_empty none = List.[]
or_empty (some ts) = ts

-- the targets of the preimage, none of a malformed value
abbrev pub known_targets : Field → Option Authored → List String
known_targets f none = List.[]
known_targets f (some pre) = or_empty (relationship_targets f pre)

unfoldable pub new_targets : Field → List String → List String → List (Field × String)
new_targets f known List.[] = List.[]
new_targets f known (List.◌∷◌ t ts) =
    let rest = new_targets f known ts in if str_mem t known then rest else List.◌∷◌ (f, t) rest

-- what one field adds, its new targets
unfoldable pub added_of : Field → Option Authored → Option Authored → List (Field × String)
added_of f pre none = List.[]
added_of f pre (some post) =
    new_targets f (known_targets f pre) (or_empty (relationship_targets f post))

unfoldable pub unresolved_errors : List (Field × String) → List String → List DocumentError
unresolved_errors List.[] members = List.[]
unresolved_errors (List.◌∷◌ (f, t) added) members =
    let rest = unresolved_errors added members in
    if str_mem t members then rest else List.◌∷◌ (unresolved f t) rest

unfoldable pub values : Dict String → List String
values List.[] = List.[]
values (List.◌∷◌ (p, i) m) = List.◌∷◌ i (values m)

unfoldable pub other_owner : String → String → Dict String → Option String
other_owner eid path List.[] = none
other_owner eid path (List.◌∷◌ (p, i) owners) =
    let rest = other_owner eid path owners in if i == eid && not (p == path) then some p else rest

abbrev pub front_of : Option Front → Front
front_of none = blank
front_of (some fm) = fm

-- `value not in allowed`, which raises for a list or a mapping
abbrev pub enum_errors : String → List String → EnumValue → Option (List DocumentError)
enum_errors field allowed absent = some List.[]
enum_errors field allowed other_value = some (List.◌∷◌ (invalid_enum field) List.[])
enum_errors field allowed unhashable = none
enum_errors field allowed (worded w) =
    some (if str_mem w allowed then List.[] else List.◌∷◌ (invalid_enum field) List.[])

abbrev pub both_errors :
    Option (List DocumentError) → Option (List DocumentError) → Option (List DocumentError)
both_errors none o = none
both_errors (some es) none = none
both_errors (some es) (some es') = some (es ++ es')

abbrev pub is_absent : EnumValue → Bool
is_absent absent = true
is_absent other_value = false
is_absent unhashable = false
is_absent (worded w) = false

abbrev pub collision_of : Option String → Option String → List DocumentError
collision_of (some p) o = List.◌∷◌ (duplicate_id p) List.[]
collision_of none (some p) = List.◌∷◌ (duplicate_id p) List.[]
collision_of none none = List.[]

-- the first of the fields that is there
abbrev pub first_present : (Field → Option Authored) → Option Field
first_present rel = elim (rel supersedes) [
  | some a ↦ some supersedes
  | none ↦ elim (rel superseded_by) [
    | some a ↦ some superseded_by
    | none ↦ elim (rel derived_from) [ some a ↦ some derived_from | none ↦ none ]
  ]
]
