-- ===== src/Tests/Access.antt =====
-- Runs of the principal registry (principals.py) and of the path rules (auth.py).
use data_olympus.Base.{true, false, none, some, List, [], ◌∷◌, ◌≡◌, refl}
use data_olympus.Pending.Queue.{strip, is_space}
use data_olympus.Access.Paths.{
  normalize_target_path, is_blank, has_control, fold_slashes, split, any_bad, join_parts, glue,
  is_absolute,
}
use data_olympus.Access.Canonical.{normalize_target_path_canonical}
use data_olympus.Access.Registry.{
  Spec, Registry, operator, register, build, name_of, capset, resolve, extract_bearer,
}
use data_olympus.Access.Ownership.{Grounded, resolve-Grounded}

abbrev specs : List Spec
specs =
    record { token = "t1"; name = "alice"; capabilities = none }
    ∷ record { token = " "; name = "skipped"; capabilities = none }
    ∷ record { token = "t2"; name = ""; capabilities = some ("resolve" ∷ " " ∷ []) }
    ∷ []

abbrev others : Registry
others =
    ("t1", record { name = "alice"; capabilities = "read" ∷ "propose" ∷ []; authenticated = true })
    ∷ ("t2", record { name = "agent"; capabilities = "resolve" ∷ []; authenticated = true })
    ∷ []

abbrev registry : Registry
registry = ("op", operator) ∷ others

built : build "op" specs ≡ some registry
unfolding build register strip name_of capset
built = refl

resolve-Grounded_example :
    Grounded (extract_bearer (some "Bearer t2")) (resolve registry (some "Bearer t2")) registry
resolve-Grounded_example = resolve-Grounded ("op", operator) others (some "Bearer t2")

-- a backslash is folded, and a traversal is no path
folded : normalize_target_path "decisions\\x.md" ≡ some "decisions/x.md"
unfolding normalize_target_path is_blank is_space has_control fold_slashes split any_bad join_parts
    glue
folded = refl

traversal : normalize_target_path "memory\\..\\x.md" ≡ none
unfolding normalize_target_path is_blank is_space has_control fold_slashes split any_bad join_parts
    glue
traversal = refl

normalize_target_path_canonical_example :
    (normalize_target_path "decisions/x.md" ≡ some "decisions/x.md")
    × (any_bad (split "decisions/x.md") ≡ false)
    × (is_absolute "decisions/x.md" ≡ false)
    × (has_control "decisions/x.md" ≡ false)
    × (fold_slashes "decisions/x.md" ≡ "decisions/x.md")
normalize_target_path_canonical_example =
    normalize_target_path_canonical "decisions\\x.md" "decisions/x.md" folded
