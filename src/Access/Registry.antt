-- ===== src/Access/Registry.antt =====
-- principals.py: `Principal`, `PrincipalRegistry` and `_extract_bearer`. A capability is its text.
use Prim.Native.Char.{code}
use Prim.Native.String.{[], ◌∷◌}
use data_olympus.Base.{
  String, Bool, true, false, Option, none, some, List, str_mem, eqb, if◌then◌else◌, ◌==◌,
}
use data_olympus.Pending.Queue.{strip}

pub record Principal : Type 0 where
  pub name : String
  pub capabilities : List String
  pub authenticated : Bool

unfoldable pub has : String → Principal → Bool
has capability p = str_mem capability p.capabilities

-- An entry of KB_AUTH_PRINCIPALS: its fields as texts, "" where they are absent; no list of
-- capabilities is `none`.
pub record Spec : Type 0 where
  pub token : String
  pub name : String
  pub capabilities : Option (List String)

abbrev pub default_principal_capabilities : List String
default_principal_capabilities = List.◌∷◌ "read" (List.◌∷◌ "propose" List.[])

abbrev pub all_capabilities : List String
all_capabilities = List.◌∷◌ "read" (
    List.◌∷◌ "propose" (
      List.◌∷◌ "auto_commit"
        (List.◌∷◌ "resolve" (List.◌∷◌ "bootstrap" (List.◌∷◌ "record_event" List.[])))))

abbrev pub local_trusted : Principal
local_trusted = record { name = "local"; capabilities = all_capabilities; authenticated = false }

abbrev pub anonymous : Principal
anonymous = record {
  name = "anonymous";
  capabilities = List.◌∷◌ "read" List.[];
  authenticated = false;
}

abbrev pub operator : Principal
operator = record { name = "operator"; capabilities = all_capabilities; authenticated = true }

drop_prefix : String → String → Option String
drop_prefix [] s = some s
drop_prefix (c ∷ p) [] = none
drop_prefix (c ∷ p) (d ∷ s) =
    let rest = drop_prefix p s in if eqb (code c) (code d) then rest else none

unfoldable pub extract_bearer : Option String → Option String
unfolding drop_prefix
extract_bearer none = none
extract_bearer (some header) = drop_prefix "Bearer " header

stripped : List String → List String
stripped List.[] = List.[]
stripped (List.◌∷◌ c cs) =
    let rest = stripped cs in if strip c == "" then rest else List.◌∷◌ (strip c) rest

unfoldable pub capset : Option (List String) → List String
unfolding stripped
capset none = default_principal_capabilities
capset (some cs) = stripped cs

unfoldable pub name_of : Spec → String
name_of s = if strip s.name == "" then "agent" else strip s.name

abbrev pub principal_of : Spec → Principal
principal_of s = record {
  name = name_of s;
  capabilities = capset s.capabilities;
  authenticated = true;
}

-- the tokens with their principals, in the order they are tried
abbrev pub Registry : Type 0
Registry = List (String × Principal)

abbrev pub with_first : String × Principal → Option Registry → Option Registry
with_first e none = none
with_first e (some r) = some (List.◌∷◌ e r)

-- the loop over the entries; `none` is the `ValueError` of a duplicate name
unfoldable pub register : List Spec → List String → Option Registry
register List.[] seen_names = some List.[]
register (List.◌∷◌ s specs) seen_names =
    let skipped = register specs seen_names in
    let rest = register specs (List.◌∷◌ (name_of s) seen_names) in
    if strip s.token == ""
    then skipped
    else if str_mem (name_of s) seen_names
    then none
    else with_first (strip s.token, principal_of s) rest

unfoldable pub build : String → List Spec → Option Registry
build auth_token specs =
    if auth_token == ""
    then register specs List.[]
    else with_first (auth_token, operator) (register specs (List.◌∷◌ "operator" List.[]))

unfoldable pub find_token : String → Registry → Principal
find_token token List.[] = anonymous
find_token token (List.◌∷◌ (known, p) r) =
    let rest = find_token token r in if token == known then p else rest

abbrev pub by_bearer : Option String → Registry → Principal
by_bearer none r = anonymous
by_bearer (some token) r = find_token token r

unfoldable pub resolve : Registry → Option String → Principal
resolve List.[] auth_header = local_trusted
resolve (List.◌∷◌ e r) auth_header = by_bearer (extract_bearer auth_header) (List.◌∷◌ e r)
