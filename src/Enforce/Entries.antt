-- ===== src/Enforce/Entries.antt =====
-- enforce_policy.py: the entry that `record` leaves, and coverages that hold more.
use data_olympus.Base.{
  ℕ, ◌≤◌, String, true, some, List, [], ◌∷◌, map, Dict, lookup, put, lookup-put, leb, str_mem,
  if◌then◌else◌, ◌≡◌, refl, inl, inr, arith, eq_iff, eq_refl, str_eq-cases,
}
use data_olympus.Enforce.Ledger.{Key, same_key, put_all}
use data_olympus.Enforce.Policy.{
  signal_family, clears, any_keyword, keywords_of, uncovered, keyword_signal,
}
use data_olympus.Enforce.Signals.{mem_later}

pub same_key_refl : (k : Key) → same_key k k ≡ true
same_key_refl k = ground (arith, eq_refl k.session_id, eq_refl k.workspace)

pub leb-true : (a b : ℕ) → a ≤ b → leb a b ≡ true
leb-true a b h = ground arith

pub lookup-put_all :
    (names : List String) (t : ℕ) (signals : Dict ℕ) (sig : String)
    → lookup sig (put_all names t signals)
      ≡ (if str_mem sig names then some t else lookup sig signals)
unfolding put_all
lookup-put_all [] t signals sig = refl
lookup-put_all (name ∷ names) t signals sig = ground (
  arith,
  lookup-put_all names t (put name t signals) sig,
  lookup-put name sig t signals,
  eq_iff sig name,
  eq_iff name sig,
)

mem_map :
    (s : String) (ss : List String)
    → str_mem s ss ≡ true
    → str_mem (signal_family s) (map signal_family ss) ≡ true
mem_map s [] h = cc
mem_map s (t ∷ ts) h = elim (str_eq-cases s t) [
  | inl is ↦ rw (is, eq_refl (signal_family t)) refl
  | inr (_, differs) ↦ mem_later _ (signal_family t) _ (mem_map s ts (rw differs at h))
]

module _ (table : Dict (List String)) where
  any_keyword-more :
      (kws families : List String) (fam : String)
      → str_mem fam families ≡ true
      → any_keyword kws (fam ∷ []) ≡ true
      → any_keyword kws families ≡ true
  any_keyword-more [] families fam mem h = h
  any_keyword-more (kw ∷ kws) families fam mem h = elim (str_eq-cases (keyword_signal kw) fam) [
    | inl is ↦ rw (is, mem) refl
    | inr (_, differs) ↦ ground (arith, any_keyword-more kws families fam mem (rw differs at h))
  ]

  pub clears-more :
      (coverage : List String) (s sig : String)
      → str_mem s coverage ≡ true
      → clears table (signal_family s ∷ []) sig ≡ true
      → clears table (map signal_family coverage) sig ≡ true
  unfolding clears
  clears-more coverage s sig mem h = elim (str_eq-cases (signal_family sig) (signal_family s)) [
    | inl is ↦ rw (is, mem_map s coverage mem) refl
    | inr (_, differs) ↦ ground (
      arith,
      any_keyword-more (keywords_of (lookup (signal_family sig) table)) (map signal_family coverage)
          (signal_family s) (mem_map s coverage mem) (rw differs at h),
    )
  ]

  pub uncovered-none :
      (families sigs : List String)
      → ((sig : String) → str_mem sig sigs ≡ true → clears table families sig ≡ true)
      → uncovered table families sigs ≡ []
  unfolding uncovered
  uncovered-none families [] h = refl
  uncovered-none families (sig ∷ sigs) h =
      rw (h sig (rw (eq_refl sig) refl))
        (uncovered-none families sigs (λ t mem. h t (mem_later t sig sigs mem)))
