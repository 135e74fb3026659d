-- ===== src/Lane/Force.antt =====
-- format/validate.py: in force against retired and fresh.
use data_olympus.Base.{
  ℕ, String, Bool, true, false, not, ◌&&◌, Option, none, some, str_mem, ltb, if◌then◌else◌, ◌==◌,
  ◌≡◌, inl, inr, refl, arith, eq_iff, Bool-cases, subst, sym,
}
use data_olympus.Lane.Validity.{
  in_force_statuses, retired_statuses, is_in_force, is_retired, Freshness, expired, upcoming,
  never_verified, compute_freshness, by_recheck, by_verification, by_age, given,
}

-- the two status classes have no status in common
classes_disjoint :
    (s : String) → str_mem s in_force_statuses ≡ true → str_mem s retired_statuses ≡ false
classes_disjoint s h =
    by_status (s == "active") (s == "accepted") (s == "approved") refl refl refl h
  where
    at :
        (t : String)
        → str_mem t retired_statuses ≡ false
        → (s == t) ≡ true
        → str_mem s retired_statuses ≡ false
    at t not_there is =
        subst (λ x. str_mem x retired_statuses ≡ false) (sym ((eq_iff s t).0 is)) not_there

    by_status :
        (a b c : Bool)
        → (s == "active") ≡ a
        → (s == "accepted") ≡ b
        → (s == "approved") ≡ c
        → (if a then true else (if b then true else (if c then true else false))) ≡ true
        → str_mem s retired_statuses ≡ false
    by_status true b c pa pb pc m = at "active" refl pa
    by_status false true c pa pb pc m = at "accepted" refl pb
    by_status false false true pa pb pc m = at "approved" refl pc
    by_status false false false pa pb pc m = cc

-- A document in force is not retired, unless the supersedes graph excludes it.
in_force-not_retired :
    (status : String) (valid_from valid_until : Option String) (today : String) (is_inbox : Bool)
    → is_in_force status valid_from valid_until today is_inbox ≡ true
    → is_retired status valid_until today false ≡ false
unfolding is_in_force is_retired
in_force-not_retired status valid_from valid_until today is_inbox h =
    by_class (str_mem status in_force_statuses) refl
  where
    by_class :
        (b : Bool)
        → str_mem status in_force_statuses ≡ b
        → is_retired status valid_until today false ≡ false
    by_class true is = ground (arith, classes_disjoint status is)
    by_class false is = let bad : ⊥ = ground (arith, is) in absurd bad

-- outside the validity window
abbrev pub out_of_window : Freshness → Bool
out_of_window expired = true
out_of_window upcoming = true
out_of_window _ = false

module _ (days_since : String → String → Option ℕ) where
  by_age-within : (o : Option ℕ) (n : ℕ) → out_of_window (by_age days_since o n) ≡ false
  unfolding by_age
  by_age-within none n = refl
  by_age-within (some days) n = ground arith

  by_verification-within :
      (v : Option String) (today : String) (t : Option ℕ)
      → out_of_window (by_verification days_since v today t) ≡ false
  unfolding by_verification
  by_verification-within v today none = refl
  by_verification-within v today (some n) = elim (Bool-cases (ltb 0 n)) [
    | inl on ↦ rw on (by_date (given v))
    | inr off ↦ rw off refl
  ]
    where
      by_date :
          (o : Option String)
          → out_of_window (elim o [
            | none ↦ never_verified
            | some date ↦ by_age days_since (days_since date today) n
          ])
            ≡ false
      by_date none = refl
      by_date (some date) = by_age-within (days_since date today) n

  by_recheck-within :
      (r v : Option String) (today : String) (t : Option ℕ)
      → out_of_window (by_recheck days_since r v today t) ≡ false
  unfolding by_recheck
  by_recheck-within none v today t = by_verification-within v today t
  by_recheck-within (some date) v today t = ground arith

  -- The in-force predicate and the freshness indicator read one validity window: a document is in
  -- force exactly if it is no inbox file, its status is in the in-force class, and its freshness is
  -- neither expired nor upcoming, whatever its recheck and verification dates.
  pub in_force-freshness :
      (status : String) (valid_from valid_until recheck_by last_verified : Option String)
      (today : String) (threshold : Option ℕ) (is_inbox : Bool)
      → is_in_force status valid_from valid_until today is_inbox ≡ (
          not is_inbox
          && (str_mem status in_force_statuses
              && not (
                  out_of_window (
                    compute_freshness days_since valid_from valid_until recheck_by last_verified
                      today threshold))))
  unfolding is_in_force compute_freshness
  in_force-freshness status vf vu r v today t is_inbox =
      ground (arith, by_recheck-within (given r) v today t)
