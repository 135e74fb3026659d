-- ===== src/Enforce/Signals.antt =====
-- enforce_policy.py: what clears a signal, and where the fresh signals of the ledger come from.
use data_olympus.Base.{
  ℕ, ◌-◌, ◌≤◌, String, true, Option, none, some, List, [], ◌∷◌, map, Dict, lookup, str_mem, ◌≡◌,
  refl, sym, inl, inr, arith, eq_refl, Bool-cases, str_eq-cases,
}
use data_olympus.Enforce.Ledger.{
  Key, LedgerEntry, Entries, Consultation, get, is_recent, recent_opt, entry_fresh, is_fresh,
  recent_signals, fresh_signals, prior_signals,
}
use data_olympus.Enforce.Policy.{
  signal_family, keyword_signal, any_keyword, keywords_of, clears, uncovered,
}
use data_olympus.Enforce.Support.{
  SomeOf, IsExplicit, IsCovering, SignalsFrom, TimeFrom, EntryFrom, AllFrom, AllFrom-get,
}

-- a signal of a coverage that clears the signal on its own
abbrev pub HasClearing : Dict (List String) → List String → String → Type 0
HasClearing table coverage sig =
    (s : String) × (str_mem s coverage ≡ true) × (clears table (signal_family s ∷ []) sig ≡ true)

pub mem_later : (t s : String) (ss : List String) → str_mem t ss ≡ true → str_mem t (s ∷ ss) ≡ true
mem_later t s ss h = ground (arith, h)

module _ (table : Dict (List String)) where
  pub uncovered-clears :
      (families sigs : List String) (sig : String)
      → uncovered table families sigs ≡ []
      → str_mem sig sigs ≡ true
      → clears table families sig ≡ true
  unfolding uncovered
  uncovered-clears families [] sig h mem = cc
  uncovered-clears families (x ∷ xs) sig h mem = elim (Bool-cases (clears table families x)) [
    | inl fine ↦ elim (str_eq-cases sig x) [
      | inl is ↦ rw is fine
      | inr (_, differs) ↦ uncovered-clears families xs sig (rw fine at h) (rw differs at mem)
    ]
    | inr open_sig ↦ cc (rw open_sig at h)
  ]

  mem_family :
      (fam : String) (coverage : List String)
      → str_mem fam (map signal_family coverage) ≡ true
      → (s : String) × (str_mem s coverage ≡ true) × (signal_family s ≡ fam)
  mem_family fam [] h = cc
  mem_family fam (s ∷ ss) h = elim (str_eq-cases fam (signal_family s)) [
    | inl is ↦ (s, rw (eq_refl s) refl, sym is)
    | inr (_, differs) ↦
        let (t, mem, is) = mem_family fam ss (rw differs at h) in (t, mem_later t s ss mem, is)
  ]

  -- one of the keywords is in the coverage by one of its signals
  mem_keyword :
      (kws coverage : List String)
      → any_keyword kws (map signal_family coverage) ≡ true
      → (s : String) × (str_mem s coverage ≡ true) × (any_keyword kws (signal_family s ∷ []) ≡ true)
  mem_keyword [] coverage h = cc
  mem_keyword (kw ∷ kws) coverage h =
      elim (Bool-cases (str_mem (keyword_signal kw) (map signal_family coverage))) [
        | inl here ↦
            let (s, mem, is) = mem_family (keyword_signal kw) coverage here in
            (s, mem, rw (is, eq_refl (keyword_signal kw)) refl)
        | inr absent ↦
            let (s, mem, is) = mem_keyword kws coverage (rw absent at h) in
            (s, mem, rw is (ground arith))
      ]

  pub clears-HasClearing :
      (coverage : List String) (sig : String)
      → clears table (map signal_family coverage) sig ≡ true
      → HasClearing table coverage sig
  unfolding clears
  clears-HasClearing coverage sig h =
      elim (Bool-cases (str_mem (signal_family sig) (map signal_family coverage))) [
        | inl here ↦
            let (s, mem, is) = mem_family (signal_family sig) coverage here in
            (s, mem, rw (is, eq_refl (signal_family sig)) refl)
        | inr absent ↦
            let (s, mem, is) =
              mem_keyword (keywords_of (lookup (signal_family sig) table)) coverage
                (rw absent at h) in
            (s, mem, rw is (ground arith))
      ]

-- a fresh signal has been recorded within the time to live
recent_signals-From :
    (history : List Consultation) (k : Key) (now ttl_sec : ℕ) (signals : Dict ℕ) (s : String)
    → SignalsFrom history k signals
    → str_mem s (recent_signals now ttl_sec signals) ≡ true
    → (t : ℕ) × (now - t ≤ ttl_sec) × SomeOf (IsCovering k t s) history
unfolding recent_signals
recent_signals-From history k now ttl_sec [] s h mem = cc
recent_signals-From history k now ttl_sec ((sig, ts) ∷ signals) s (h, hs) mem =
    elim (Bool-cases (is_recent now ttl_sec ts)) [
      | inl recent ↦ elim (str_eq-cases s sig) [
        | inl is ↦ (ts, ground arith, rw is h)
        | inr (_, differs) ↦
            recent_signals-From history k now ttl_sec signals s hs
              (rw differs at (rw recent at mem))
      ]
      | inr old ↦ recent_signals-From history k now ttl_sec signals s hs (rw old at mem)
    ]

pub fresh_signals-From :
    (history : List Consultation) (k : Key) (now ttl_sec : ℕ) (es : Entries) (s : String)
    → AllFrom history es
    → str_mem s (fresh_signals k now ttl_sec es) ≡ true
    → (t : ℕ) × (now - t ≤ ttl_sec) × SomeOf (IsCovering k t s) history
unfolding fresh_signals
fresh_signals-From history k now ttl_sec es s h mem =
    recent_signals-From history k now ttl_sec (prior_signals (get k es)) s
      (from_prior (get k es) (AllFrom-get history k es h)) mem
  where
    from_prior :
        (prior : Option LedgerEntry)
        → ((e : LedgerEntry) → prior ≡ some e → EntryFrom history k e)
        → SignalsFrom history k (prior_signals prior)
    from_prior none h = tt
    from_prior (some e) h = (h e refl).1

pub is_fresh-From :
    (history : List Consultation) (k : Key) (now ttl_sec : ℕ) (es : Entries)
    → AllFrom history es
    → is_fresh k now ttl_sec true es ≡ true
    → (t : ℕ) × (now - t ≤ ttl_sec) × SomeOf (IsExplicit k t) history
unfolding is_fresh
is_fresh-From history k now ttl_sec es h fresh =
    from_entry (get k es) (AllFrom-get history k es h) fresh
  where
    from_time :
        (o : Option ℕ)
        → TimeFrom history k o
        → recent_opt now ttl_sec o ≡ true
        → (t : ℕ) × (now - t ≤ ttl_sec) × SomeOf (IsExplicit k t) history
    from_time none h fresh = cc
    from_time (some t) h fresh = (t, ground arith, h)

    from_entry :
        (prior : Option LedgerEntry)
        → ((e : LedgerEntry) → prior ≡ some e → EntryFrom history k e)
        → entry_fresh now ttl_sec true prior ≡ true
        → (t : ℕ) × (now - t ≤ ttl_sec) × SomeOf (IsExplicit k t) history
    from_entry none h fresh = cc
    from_entry (some e) h fresh = from_time e.explicit_at (h e refl).0 fresh
