-- ===== src/Gate/Owners.antt =====
-- write_gate.py: a document that is valid takes no effective id of another committed path.
use data_olympus.Base.{
  String, Bool, true, false, str_eq-cases, Option, none, some, List, [], ◌∷◌, ◌++◌, Dict, lookup,
  ◌≡◌, ◌≢◌, inl, inr, refl, subst, arith, eq_iff, if◌then◌else◌, ◌==◌,
}
use data_olympus.Gate.Fronts.{
  Front, committed_tree, DocumentError, Sources, front_of, other_owner, collision_of,
}
use data_olympus.Gate.Documents.{
  effective_doc_id, path_to_effective_id, duplicate_errors, index_collision, all_errors, judged,
  validate_postimage,
}

-- no other path of the tree has the id
pub other_owner-none :
    (i path : String) (owners : Dict String) (p : String)
    → other_owner i path owners ≡ none
    → lookup p owners ≡ some i
    → p ≡ path
unfolding other_owner lookup
other_owner-none i path [] p h at = cc
other_owner-none i path ((q, j) ∷ owners) p h at =
    ground (arith, eq_iff q p, eq_iff j i, eq_iff q path, other_owner-none i path owners p)

pub append_nil {ℓ} : {A : Type ℓ} (xs ys : List A) → xs ++ ys ≡ [] → (xs ≡ []) × (ys ≡ [])
append_nil [] ys h = (refl, h)
append_nil (x ∷ xs) ys h = absurd cc

-- the errors of a list that is empty
pub nil_of : {es : List DocumentError} → some es ≡ some [] → es ≡ []
nil_of h = cc

pub if_nil :
    (b : Bool) (es : List DocumentError) → b ≡ false → (if b then [] else es) ≡ [] → es ≡ []
if_nil true es is h = absurd cc
if_nil false es is h = h

collision_none : (o o' : Option String) → collision_of o o' ≡ [] → o' ≡ none
collision_none none none h = refl
collision_none (some p) o' h = absurd cc
collision_none none (some p) h = absurd cc

module _ (s : Sources) (path : String) (tree : Dict Front) (ws : Dict String) where
  duplicate_none :
      (fm : Front)
      → duplicate_errors s fm path (committed_tree tree) ≡ []
      → effective_doc_id s fm path ≢ ""
      → other_owner (effective_doc_id s fm path) path (path_to_effective_id s tree) ≡ none
  unfolding duplicate_errors
  duplicate_none fm h proper = elim (str_eq-cases (effective_doc_id s fm path) "") [
    | inl blank ↦ absurd (proper blank)
    | inr (_, other) ↦
        collision_none (index_collision s (effective_doc_id s fm path) path) _
          (if_nil (effective_doc_id s fm path == "") _ other h)
  ]

  parts_none :
      (o : Option (List DocumentError)) (fm : Front)
      → all_errors s o fm path (committed_tree tree) ws ≡ some []
      → duplicate_errors s fm path (committed_tree tree) ≡ []
  parts_none none fm h = absurd cc
  parts_none (some es) fm h = (append_nil _ _ (append_nil _ _ (nil_of h)).0).1

  judged_owner :
      (o : Option Front)
      → judged s o path (committed_tree tree) ws ≡ some []
      → effective_doc_id s (front_of o) path ≢ ""
      → other_owner (effective_doc_id s (front_of o) path) path (path_to_effective_id s tree) ≡ none
  judged_owner none h proper = absurd cc
  judged_owner (some fm) h proper = duplicate_none fm (parts_none _ fm h) proper

  -- a document that is valid takes no id of another path
  pub valid_owner :
      (text : String) (o : Option Front)
      → s.parse text ≡ o
      → validate_postimage s path text (committed_tree tree) ws ≡ some []
      → effective_doc_id s (front_of o) path ≢ ""
      → other_owner (effective_doc_id s (front_of o) path) path (path_to_effective_id s tree) ≡ none
  unfolding validate_postimage
  valid_owner text o is h =
      judged_owner o (subst (λ o. judged s o path (committed_tree tree) ws ≡ some []) is h)
