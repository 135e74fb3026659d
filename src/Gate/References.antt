-- ===== src/Gate/References.antt =====
-- write_gate.py: `_supersession_errors` lets no new dangling reference into a commit.
use data_olympus.Base.{
  String, Bool, true, false, Option, none, some, List, [], ◌∷◌, ◌++◌, Dict, lookup, str_mem,
  if◌then◌else◌, ◌≡◌, ◌⊎◌, inl, inr, refl, subst, sym, str_eq-cases, ◌==◌,
}
use data_olympus.Gate.Fronts.{
  Field, unresolved, supersedes, superseded_by, derived_from, Authored, Front, committed_tree,
  DocumentError, Sources, relationship_targets, known_targets, new_targets, added_of,
  unresolved_errors, values, front_of, or_empty,
}
use data_olympus.Gate.Documents.{
  result_owners, relation_errors, supersession_errors, is_reserved, all_errors, judged,
  validate_postimage,
}
use data_olympus.Gate.Owners.{append_nil, if_nil, nil_of}

if_none :
    (b : Bool) (e : DocumentError) (es : List DocumentError)
    → (if b then es else e ∷ es) ≡ []
    → (b ≡ true) × (es ≡ [])
if_none true e es h = (refl, h)
if_none false e es h = absurd cc

unresolved_split :
    (xs ys : List (Field × String)) (members : List String)
    → unresolved_errors (xs ++ ys) members ≡ []
    → (unresolved_errors xs members ≡ []) × (unresolved_errors ys members ≡ [])
unfolding unresolved_errors
unresolved_split [] ys members h = (refl, h)
unresolved_split ((f, t) ∷ xs) ys members h =
    let (there, rest) = if_none (str_mem t members) (unresolved f t) _ h in
    let (here, later) = unresolved_split xs ys members rest in (rw there here, later)

module _ (f : Field) (known members : List String) where
  abbrev Found : String → Type 0
  Found t = (str_mem t known ≡ true) ⊎ (str_mem t members ≡ true)

  new_or_known :
      (b : Bool) (u : String) (rest : List (Field × String))
      → str_mem u known ≡ b
      → unresolved_errors (if b then rest else (f, u) ∷ rest) members ≡ []
      → Found u × (unresolved_errors rest members ≡ [])
  unfolding unresolved_errors
  new_or_known true u rest is h = (inl is, h)
  new_or_known false u rest is h =
      let (there, later) = if_none (str_mem u members) (unresolved f u) _ h in (inr there, later)

  -- a target that is not new is known, and a new one is a member
  new_targets_resolve :
      (ts : List String) (t : String)
      → unresolved_errors (new_targets f known ts) members ≡ []
      → str_mem t ts ≡ true
      → Found t
  unfolding new_targets
  new_targets_resolve [] t h at = absurd cc
  new_targets_resolve (u ∷ ts) t h at =
      let (found, rest) = new_or_known (str_mem u known) u _ refl h in
      elim (str_eq-cases t u) [
        | inl same ↦ subst Found (sym same) found
        | inr (_, other) ↦ new_targets_resolve ts t rest (if_other (t == u) (str_mem t ts) other at)
      ]
    where
      if_other : (b c : Bool) → b ≡ false → (if b then true else c) ≡ true → c ≡ true
      if_other true c is h = absurd cc
      if_other false c is h = h

module _ (s : Sources) (path : String) (fm : Front) (tree : Dict Front) (ws : Dict String) where
  -- the preimage, and the ids of the commit that is being made
  abbrev pub preimage : Front
  preimage = front_of (lookup path tree)

  abbrev pub members : List String
  members = values (result_owners s tree path fm ws)

  abbrev added : Field → List (Field × String)
  added f = added_of f (preimage.relation f) (fm.relation f)

  split_fields :
      (f : Field)
      → unresolved_errors ((added supersedes ++ added superseded_by) ++ added derived_from) members
        ≡ []
      → unresolved_errors (added f) members ≡ []
  split_fields supersedes h = (unresolved_split _ _ members (unresolved_split _ _ members h).0).0
  split_fields superseded_by h = (unresolved_split _ _ members (unresolved_split _ _ members h).0).1
  split_fields derived_from h = (unresolved_split _ _ members h).1

  field_resolves :
      (f : Field)
      → relation_errors s fm path tree ws ≡ []
      → unresolved_errors (added f) members ≡ []
  unfolding relation_errors
  field_resolves f h = split_fields f (append_nil _ _ h).1

  relations_none :
      (o : Option (List DocumentError))
      → is_reserved s path ≡ false
      → all_errors s o fm path (committed_tree tree) ws ≡ some []
      → relation_errors s fm path tree ws ≡ []
  unfolding supersession_errors
  relations_none none kept h = absurd cc
  relations_none (some es) kept h = if_nil (is_reserved s path) _ kept (append_nil _ _ (nil_of h)).1

  added_resolves :
      (f : Field) (pre post : Option Authored) (a : Authored) (ts : List String) (t : String)
      → post ≡ some a
      → relationship_targets f a ≡ some ts
      → str_mem t ts ≡ true
      → unresolved_errors (added_of f pre post) members ≡ []
      → (str_mem t (known_targets f pre) ≡ true) ⊎ (str_mem t members ≡ true)
  unfolding added_of
  added_resolves f pre post a ts t is targets at h =
      new_targets_resolve f (known_targets f pre) members ts t
        (subst
          (λ o. unresolved_errors (new_targets f (known_targets f pre) (or_empty o)) members ≡ [])
          targets (subst (λ o. unresolved_errors (added_of f pre o) members ≡ []) is h))
        at

  -- No commit gets a new dangling reference: where a document that is not a reserved file is valid
  -- against the committed tree, each id that one of its relationship fields names is named by the
  -- same field of the committed version, or is the effective id of a document of the commit that is
  -- being made, with all the files that are written together.
  pub validate_postimage-resolves :
      (postimage : String) (f : Field) (a : Authored) (ts : List String) (t : String)
      → s.parse postimage ≡ some fm
      → is_reserved s path ≡ false
      → validate_postimage s path postimage (committed_tree tree) ws ≡ some []
      → fm.relation f ≡ some a
      → relationship_targets f a ≡ some ts
      → str_mem t ts ≡ true
      → (str_mem t (known_targets f (preimage.relation f)) ≡ true) ⊎ (str_mem t members ≡ true)
  unfolding validate_postimage
  validate_postimage-resolves postimage f a ts t parsed kept valid is targets at =
      added_resolves f (preimage.relation f) (fm.relation f) a ts t is targets at (
        field_resolves f (
          relations_none _ kept
            (subst (λ o. judged s o path (committed_tree tree) ws ≡ some []) parsed valid)))
