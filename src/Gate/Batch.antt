-- ===== src/Gate/Batch.antt =====
-- tools_write.py: the ids of the files of one bundle.
use data_olympus.Base.{
  if_both, String, Bool, true, false, not, ◌&&◌, str_eq-cases, some, List, [], ◌∷◌, Dict, lookup,
  lookup-put, lookup-put_self, ◌≡◌, ◌≢◌, ◌⊎◌, inl, inr, refl, sym, ap, ◌∙◌, subst, arith, eq_iff,
  if◌then◌else◌, ◌==◌,
}
use data_olympus.Gate.Bundle.{
  File, BundleSite, BundleVerdict, admits, same_id, doc_id, is_other, remember, check_ids,
}

abbrev pub Among : File → List File → Type 0
Among f [] = ⊥
Among f (g ∷ gs) = (f ≡ g) ⊎ Among f gs

module _ (b : BundleSite) where
  abbrev clashes : Dict String → File → Bool
  clashes seen f = not (doc_id b f == "") && is_other b (lookup (doc_id b f) seen) f.target_path

  if_admits :
      (x : Bool) (i p : String) (rest : BundleVerdict)
      → (if x then same_id i p else rest) ≡ admits
      → (x ≡ false) × (rest ≡ admits)
  if_admits true i p rest h = absurd cc
  if_admits false i p rest h = (refl, h)

  same_path :
      (seen : Dict String) (f : File) (path : String)
      → clashes seen f ≡ false
      → doc_id b f ≢ ""
      → lookup (doc_id b f) seen ≡ some path
      → f.target_path ≡ path
  same_path seen f path clear proper at =
      sym
        ((eq_iff path f.target_path).0 (ground (arith, clear, at, eq_iff (doc_id b f) "", proper)))

  still :
      (seen : Dict String) (f g : File) (path : String)
      → clashes seen f ≡ false
      → doc_id b g ≢ ""
      → lookup (doc_id b g) seen ≡ some path
      → lookup (doc_id b g) (remember b f seen) ≡ some path
  still seen f g path clear proper at = elim (str_eq-cases (doc_id b f) (doc_id b g)) [
    | inl same ↦
        let took =
          same_path seen f path clear (λ e. proper (sym same ∙ e))
            (ap (λ i. lookup i seen) same ∙ at) in
        if_both At (doc_id b f == "") _ _ at (
          lookup-put (doc_id b f) (doc_id b g) f.target_path seen
          ∙ ground (arith, eq_iff (doc_id b f) (doc_id b g), same, took))
    | inr (_, other) ↦
        if_both At (doc_id b f == "") _ _ at
          (lookup-put (doc_id b f) (doc_id b g) f.target_path seen ∙ rw other at)
  ]
    where
      At : Dict String → Type 0
      At m = lookup (doc_id b g) m ≡ some path

  taken :
      (seen : Dict String) (x : File) (i : String)
      → doc_id b x ≡ i
      → doc_id b x ≢ ""
      → lookup i (remember b x seen) ≡ some x.target_path
  taken seen x i is proper = elim (str_eq-cases (doc_id b x) "") [
    | inl blank ↦ absurd (proper blank)
    | inr (_, other) ↦ rw (other, sym is) (lookup-put_self (doc_id b x) x.target_path seen)
  ]

  -- a file whose id is taken has the path that took it
  check_ids_agree :
      (seen : Dict String) (fs : List File) (g : File) (path : String)
      → check_ids b seen fs ≡ admits
      → Among g fs
      → doc_id b g ≢ ""
      → lookup (doc_id b g) seen ≡ some path
      → g.target_path ≡ path
  unfolding check_ids
  check_ids_agree seen [] g path h among proper at = absurd among
  check_ids_agree seen (f ∷ fs) g path h (inl same) proper at =
      same_path seen g path (subst (λ x. clashes seen x ≡ false) (sym same) (if_admits _ _ _ _ h).0)
        proper at
  check_ids_agree seen (f ∷ fs) g path h (inr among) proper at =
      let (clear, rest) = if_admits _ _ _ _ h in
      check_ids_agree (remember b f seen) fs g path rest among proper
        (still seen f g path clear proper at)

  -- two files of a bundle that passes have one id only if they have one path
  pub check_ids_unique :
      (seen : Dict String) (fs : List File) (f g : File)
      → check_ids b seen fs ≡ admits
      → Among f fs
      → Among g fs
      → doc_id b f ≢ ""
      → doc_id b f ≡ doc_id b g
      → f.target_path ≡ g.target_path
  unfolding check_ids
  check_ids_unique seen [] f g h f_in g_in proper same = absurd f_in
  check_ids_unique seen (x ∷ fs) f g h (inl f_is) (inl g_is) proper same =
      ap (λ y. y.target_path) (f_is ∙ sym g_is)
  check_ids_unique seen (x ∷ fs) f g h (inl f_is) (inr g_in) proper same =
      ap (λ y. y.target_path) f_is
      ∙ sym (
          check_ids_agree (remember b x seen) fs g x.target_path (if_admits _ _ _ _ h).1 g_in
            (λ e. proper (same ∙ e))
            (taken seen x (doc_id b g) (ap (doc_id b) (sym f_is) ∙ same)
              (λ e. proper (ap (doc_id b) f_is ∙ e))))
  check_ids_unique seen (x ∷ fs) f g h (inr f_in) (inl g_is) proper same =
      check_ids_agree (remember b x seen) fs f x.target_path (if_admits _ _ _ _ h).1 f_in proper (
        taken seen x (doc_id b f) (ap (doc_id b) (sym g_is) ∙ sym same)
          (λ e. proper (same ∙ ap (doc_id b) g_is ∙ e)))
      ∙ ap (λ y. y.target_path) (sym g_is)
  check_ids_unique seen (x ∷ fs) f g h (inr f_in) (inr g_in) proper same =
      check_ids_unique (remember b x seen) fs f g (if_admits _ _ _ _ h).1 f_in g_in proper same
