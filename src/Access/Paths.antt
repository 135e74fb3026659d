-- ===== src/Access/Paths.antt =====
-- auth.py: the structural rule of target paths and the policy blocklist. The prefixes of the
-- environment, `fnmatch` and `os.path.realpath` are arguments.
use Prim.Native.Char.{Char, code}
use Prim.Native.String.{[], ◌∷◌}
use package.text.Mathlib.Text.{starts_with}
use data_olympus.Base.{
  String, Bool, true, false, not, ◌&&◌, ◌||◌, Option, none, some, List, ltb, eqb, str_mem,
  if◌then◌else◌, ◌==◌,
}
use data_olympus.Pending.Queue.{strip, is_space}

abbrev pub default_indexed_prefixes : List String
default_indexed_prefixes = List.◌∷◌ "universal/" (
    List.◌∷◌ "tech-stacks/" (
      List.◌∷◌ "projects/" (
        List.◌∷◌ "decisions/" (
          List.◌∷◌ "workflows/"
            (List.◌∷◌ "memory/" (List.◌∷◌ "tooling/" (List.◌∷◌ "templates/" List.[])))))))

abbrev pub structurally_excluded : List String
structurally_excluded = List.◌∷◌ ".git" (
    List.◌∷◌ ".worktrees" (
      List.◌∷◌ ".ruff_cache" (
        List.◌∷◌ "__pycache__" (
          List.◌∷◌ "to-delete" (
            List.◌∷◌ "archive" (
              List.◌∷◌ "_archive" (
                List.◌∷◌ "tools" (
                  List.◌∷◌ ".pytest_cache"
                    (List.◌∷◌ ".mypy_cache" (List.◌∷◌ "node_modules" List.[]))))))))))

abbrev pub is_char : Char → String → Bool
is_char c s = (c ∷ []) == s

abbrev pub slash : Char
slash = "/"

-- `not raw.strip()`
unfoldable pub is_blank : String → Bool
is_blank [] = true
is_blank (c ∷ s) = is_space (code c) && is_blank s

abbrev pub is_control : Char → Bool
is_control c = ltb (code c) 32 || eqb (code c) 127

unfoldable pub has_control : String → Bool
has_control [] = false
has_control (c ∷ s) = is_control c || has_control s

abbrev pub is_absolute : String → Bool
is_absolute [] = false
is_absolute (c ∷ s) = is_char c "/"

abbrev pub has_drive : String → Bool
has_drive [] = false
has_drive (c ∷ []) = false
has_drive (c ∷ d ∷ s) = is_char d ":"

abbrev pub fold_char : Char → Char
fold_char c = if is_char c "\\" then slash else c

-- `raw.replace("\\", "/")`
unfoldable pub fold_slashes : String → String
fold_slashes [] = []
fold_slashes (c ∷ s) = fold_char c ∷ fold_slashes s

abbrev pub put_char : Char → List String → List String
put_char c List.[] = List.◌∷◌ (c ∷ []) List.[]
put_char c (List.◌∷◌ p ps) = List.◌∷◌ (c ∷ p) ps

-- `s.split("/")`
unfoldable pub split : String → List String
split [] = List.◌∷◌ [] List.[]
split (c ∷ s) = let rest = split s in if is_char c "/" then List.◌∷◌ [] rest else put_char c rest

-- the first text, a slash and the second
unfoldable pub glue : String → String → String
glue [] t = slash ∷ t
glue (c ∷ s) t = c ∷ glue s t

-- `str(PurePosixPath(*parts))` of parts without `.` and empty ones
unfoldable pub join_parts : List String → String
join_parts List.[] = []
join_parts (List.◌∷◌ p List.[]) = p
join_parts (List.◌∷◌ p (List.◌∷◌ q ps)) = glue p (join_parts (List.◌∷◌ q ps))

abbrev pub is_bad_part : String → Bool
is_bad_part p = p == "" || p == "." || p == ".." || str_mem p structurally_excluded

unfoldable pub any_bad : List String → Bool
any_bad List.[] = false
any_bad (List.◌∷◌ p ps) = is_bad_part p || any_bad ps

unfoldable pub normalize_target_path : String → Option String
normalize_target_path raw =
    let parts = split (fold_slashes raw) in
    if is_blank raw
    then none
    else if has_control raw
    then none
    else if is_absolute raw || has_drive raw
    then none
    else if any_bad parts
    then none
    else some (join_parts parts)

unfoldable pub ends_with : String → String → Bool
ends_with suffix [] = suffix == ""
ends_with suffix (c ∷ s) = let rest = ends_with suffix s in if (c ∷ s) == suffix then true else rest

unfoldable pub has_prefix : List String → String → Bool
has_prefix List.[] path = false
has_prefix (List.◌∷◌ p ps) path = starts_with p path || has_prefix ps path

abbrev pub writable : List String → Option String → Bool
writable prefixes none = false
writable prefixes (some path) = ends_with ".md" path && has_prefix prefixes path

-- `prefixes` is what `indexed_prefixes()` answers
unfoldable pub is_writable_path : List String → String → Bool
is_writable_path prefixes target_path = writable prefixes (normalize_target_path target_path)

pub data RejectionReason : Type 0 where
  structurally_invalid not_markdown not_in_indexed_prefixes : RejectionReason

abbrev pub reason_of : Option String → RejectionReason
reason_of none = structurally_invalid
reason_of (some path) = if ends_with ".md" path then not_in_indexed_prefixes else not_markdown

unfoldable pub path_rejection_reason : String → RejectionReason
path_rejection_reason raw_target_path = reason_of (normalize_target_path raw_target_path)

abbrev stripped : List String → List String
stripped List.[] = List.[]
stripped (List.◌∷◌ s ss) =
    let rest = stripped ss in if strip s == "" then rest else List.◌∷◌ (strip s) rest

pub record PathBlocklist : Type 0 where
  pub tier_blocks : List String
  pub path_blocks : List String

-- `PathBlocklist(...)`
unfoldable pub blocklist_of : List String → List String → PathBlocklist
unfolding stripped
blocklist_of tier_blocks path_blocks = record {
  tier_blocks = stripped tier_blocks;
  path_blocks = stripped path_blocks;
}

module _ (fnmatch : String → String → Bool) where
  abbrev any_match : String → List String → Bool
  any_match path List.[] = false
  any_match path (List.◌∷◌ p ps) = fnmatch path p || any_match path ps

  unfoldable pub blocks : PathBlocklist → String → String → Bool
  unfolding any_match
  blocks b target_path target_tier =
      str_mem target_tier b.tier_blocks || any_match target_path b.path_blocks

-- `realpath` resolves links, `join` and `normpath` are those of `os.path`
unfoldable pub safe_join_under_root :
    (String → String)
    → (String → String → String)
    → (String → String)
    → String
    → String
    → Option String
safe_join_under_root realpath join normpath root target_path =
    let root_real = realpath root in
    let full = join root target_path in
    let real = realpath full in
    let inside = not (real == root_real) && starts_with (join root_real "") real in
    if inside && real == normpath (join root_real target_path) then some full else none
