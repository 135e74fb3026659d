-- ===== src/Enforce/Support.antt =====
-- enforce_policy.py: what the entries of the ledger say about the consultations that were recorded.
use data_olympus.Base.{
  ℕ, ◌-◌, String, true, Option, none, some, List, [], ◌∷◌, length, Dict, put, ltb, leb, str_mem,
  ◌==◌, ◌≡◌, refl, subst, ◌⊎◌, inl, inr, arith, eq_iff, eq_refl, Bool-cases,
}
use data_olympus.Enforce.Ledger.{
  Key, LedgerEntry, Entries, Consultation, explicit_trigger, same_key, get, put_entry, put_all,
  kept_since, evict_old, insert_newest, newest_first, take, enforce_cap, prior_explicit,
  prior_signals, entry_of, evict, record_consult,
}

pub same_key-eq : (j k : Key) → same_key j k ≡ true → j ≡ k
same_key-eq j k h = ground (arith, eq_iff j.session_id k.session_id, eq_iff j.workspace k.workspace)

some_inj : (e f : LedgerEntry) → some e ≡ some f → e ≡ f
some_inj e f h = cc

-- one of the elements
abbrev pub SomeOf {ℓ} : {A : Type ℓ} → (A → Type 0) → List A → Type 0
SomeOf P [] = ⊥
SomeOf P (x ∷ xs) = P x ⊎ SomeOf P xs

-- an explicit consultation of this pair at this time
abbrev pub IsExplicit : Key → ℕ → Consultation → Type 0
IsExplicit k t c = (c.key ≡ k) × (c.trigger ≡ explicit_trigger) × (c.now ≡ t)

-- and with this signal
abbrev pub IsCovering : Key → ℕ → String → Consultation → Type 0
IsCovering k t sig c = IsExplicit k t c × (str_mem sig c.signals ≡ true)

abbrev pub SignalsFrom : List Consultation → Key → Dict ℕ → Type 0
SignalsFrom history k [] = Unit
SignalsFrom history k ((sig, ts) ∷ signals) =
    SomeOf (IsCovering k ts sig) history × SignalsFrom history k signals

abbrev pub TimeFrom : List Consultation → Key → Option ℕ → Type 0
TimeFrom history k none = Unit
TimeFrom history k (some t) = SomeOf (IsExplicit k t) history

abbrev pub EntryFrom : List Consultation → Key → LedgerEntry → Type 0
EntryFrom history k e = TimeFrom history k e.explicit_at × SignalsFrom history k e.explicit_signals

abbrev pub AllFrom : List Consultation → Entries → Type 0
AllFrom history [] = Unit
AllFrom history ((k, e) ∷ es) = EntryFrom history k e × AllFrom history es

module _ (history : List Consultation) where
  SignalsFrom-later :
      (c : Consultation) (k : Key) (signals : Dict ℕ)
      → SignalsFrom history k signals
      → SignalsFrom (c ∷ history) k signals
  SignalsFrom-later c k [] h = tt
  SignalsFrom-later c k ((sig, ts) ∷ signals) (h, hs) = (inr h, SignalsFrom-later c k signals hs)

  TimeFrom-later :
      (c : Consultation) (k : Key) (o : Option ℕ)
      → TimeFrom history k o
      → TimeFrom (c ∷ history) k o
  TimeFrom-later c k none h = tt
  TimeFrom-later c k (some t) h = inr h

  AllFrom-later : (c : Consultation) (es : Entries) → AllFrom history es → AllFrom (c ∷ history) es
  AllFrom-later c [] h = tt
  AllFrom-later c ((k, e) ∷ es) ((ht, hs), h) = (
    (TimeFrom-later c k e.explicit_at ht, SignalsFrom-later c k e.explicit_signals hs),
    AllFrom-later c es h,
  )

  SignalsFrom-put :
      (k : Key) (sig : String) (t : ℕ) (signals : Dict ℕ)
      → SomeOf (IsCovering k t sig) history
      → SignalsFrom history k signals
      → SignalsFrom history k (put sig t signals)
  unfolding put
  SignalsFrom-put k sig t [] h hs = (h, tt)
  SignalsFrom-put k sig t ((s, u) ∷ signals) h (hs, rest) = elim (Bool-cases (s == sig)) [
    | inl same ↦ rw same (h, rest)
    | inr differs ↦ rw differs (hs, SignalsFrom-put k sig t signals h rest)
  ]

  SignalsFrom-put_all :
      (k : Key) (names : List String) (t : ℕ) (signals : Dict ℕ)
      → ((sig : String) → str_mem sig names ≡ true → SomeOf (IsCovering k t sig) history)
      → SignalsFrom history k signals
      → SignalsFrom history k (put_all names t signals)
  unfolding put_all
  SignalsFrom-put_all k [] t signals h hs = hs
  SignalsFrom-put_all k (name ∷ names) t signals h hs =
      SignalsFrom-put_all k names t (put name t signals) (λ sig mem. h sig (ground (arith, mem)))
        (SignalsFrom-put k name t signals (h name (rw (eq_refl name) refl)) hs)

  SignalsFrom-kept_since :
      (k : Key) (cutoff : ℕ) (signals : Dict ℕ)
      → SignalsFrom history k signals
      → SignalsFrom history k (kept_since cutoff signals)
  unfolding kept_since
  SignalsFrom-kept_since k cutoff [] h = tt
  SignalsFrom-kept_since k cutoff ((s, u) ∷ signals) (hs, rest) = elim (Bool-cases (leb cutoff u)) [
    | inl new ↦ rw new (hs, SignalsFrom-kept_since k cutoff signals rest)
    | inr old ↦ rw old (SignalsFrom-kept_since k cutoff signals rest)
  ]

  pub AllFrom-get :
      (k : Key) (es : Entries)
      → AllFrom history es
      → (e : LedgerEntry) → get k es ≡ some e
      → EntryFrom history k e
  unfolding get
  AllFrom-get k [] h e found = cc
  AllFrom-get k ((j, f) ∷ es) (hf, h) e found = elim (Bool-cases (same_key j k)) [
    | inl same ↦
        subst (EntryFrom history k) (some_inj f e (rw same at found))
          (subst (λ i. EntryFrom history i f) (same_key-eq j k same) hf)
    | inr differs ↦ AllFrom-get k es h e (rw differs at found)
  ]

  AllFrom-put_entry :
      (k : Key) (e : LedgerEntry) (es : Entries)
      → EntryFrom history k e
      → AllFrom history es
      → AllFrom history (put_entry k e es)
  unfolding put_entry
  AllFrom-put_entry k e [] he h = (he, tt)
  AllFrom-put_entry k e ((j, f) ∷ es) he (hf, h) = elim (Bool-cases (same_key j k)) [
    | inl same ↦ rw same (he, h)
    | inr differs ↦ rw differs (hf, AllFrom-put_entry k e es he h)
  ]

  AllFrom-evict_old :
      (cutoff : ℕ) (es : Entries) → AllFrom history es → AllFrom history (evict_old cutoff es)
  unfolding evict_old
  AllFrom-evict_old cutoff [] h = tt
  AllFrom-evict_old cutoff ((k, e) ∷ es) (he, h) = elim (Bool-cases (leb cutoff e.consulted_at)) [
    | inl new ↦ rw new (
      (he.0, SignalsFrom-kept_since k cutoff e.explicit_signals he.1),
      AllFrom-evict_old cutoff es h,
    )
    | inr old ↦ rw old (AllFrom-evict_old cutoff es h)
  ]

  AllFrom-insert_newest :
      (k : Key) (e : LedgerEntry) (es : Entries)
      → EntryFrom history k e
      → AllFrom history es
      → AllFrom history (insert_newest (k, e) es)
  unfolding insert_newest
  AllFrom-insert_newest k e [] he h = (he, tt)
  AllFrom-insert_newest k e ((j, f) ∷ es) he (hf, h) =
      elim (Bool-cases (ltb e.consulted_at f.consulted_at)) [
        | inl older ↦ rw older (hf, AllFrom-insert_newest k e es he h)
        | inr newer ↦ rw newer (he, (hf, h))
      ]

  AllFrom-newest_first : (es : Entries) → AllFrom history es → AllFrom history (newest_first es)
  unfolding newest_first
  AllFrom-newest_first [] h = tt
  AllFrom-newest_first ((k, e) ∷ es) (he, h) =
      AllFrom-insert_newest k e (newest_first es) he (AllFrom-newest_first es h)

  AllFrom-take : (n : ℕ) (es : Entries) → AllFrom history es → AllFrom history (take n es)
  unfolding take
  AllFrom-take n [] h = tt
  AllFrom-take n ((k, e) ∷ es) (he, h) = elim (Bool-cases (leb n 0)) [
    | inl full ↦ rw full tt
    | inr free ↦ rw free (he, AllFrom-take (n - 1) es h)
  ]

  AllFrom-evict :
      (retention_sec max_entries now : ℕ) (es : Entries)
      → AllFrom history es
      → AllFrom history (evict retention_sec max_entries now es)
  unfolding evict enforce_cap
  AllFrom-evict retention_sec max_entries now es h =
      let kept = AllFrom-evict_old (now - retention_sec) es h in
      elim (Bool-cases (ltb max_entries (length (evict_old (now - retention_sec) es)))) [
        | inl over ↦ rw over (AllFrom-take max_entries _ (AllFrom-newest_first _ kept))
        | inr within ↦ rw within kept
      ]

prior-From :
    (history : List Consultation) (c : Consultation) (prior : Option LedgerEntry)
    → ((e : LedgerEntry) → prior ≡ some e → EntryFrom history c.key e)
    → TimeFrom (c ∷ history) c.key (prior_explicit prior)
      × SignalsFrom (c ∷ history) c.key (prior_signals prior)
prior-From history c none h = (tt, tt)
prior-From history c (some e) h = (
  TimeFrom-later history c c.key e.explicit_at (h e refl).0,
  SignalsFrom-later history c c.key e.explicit_signals (h e refl).1,
)

-- what a record stores comes from it or from what was there
EntryFrom-entry_of :
    (history : List Consultation) (c : Consultation) (prior : Option LedgerEntry)
    → ((e : LedgerEntry) → prior ≡ some e → EntryFrom history c.key e)
    → EntryFrom (c ∷ history) c.key (entry_of c prior)
unfolding entry_of
EntryFrom-entry_of history c prior h =
    let (time, signals) = prior-From history c prior h in
    elim (Bool-cases (c.trigger == explicit_trigger)) [
      | inl is ↦
          let explicit = (eq_iff c.trigger explicit_trigger).0 is in
          rw is (
            inl (refl, explicit, refl),
            SignalsFrom-put_all (c ∷ history) c.key c.signals c.now (prior_signals prior)
                (λ sig mem. inl ((refl, explicit, refl), mem)) signals,
          )
      | inr hook ↦ rw hook (time, signals)
    ]

pub record_consult-AllFrom :
    (history : List Consultation) (retention_sec max_entries : ℕ) (c : Consultation) (es : Entries)
    → AllFrom history es
    → AllFrom (c ∷ history) (record_consult retention_sec max_entries c es)
unfolding record_consult
record_consult-AllFrom history retention_sec max_entries c es h =
    AllFrom-evict (c ∷ history) retention_sec max_entries c.now _ (
      AllFrom-put_entry (c ∷ history) c.key _ es
        (EntryFrom-entry_of history c (get c.key es) (AllFrom-get history c.key es h))
        (AllFrom-later history c es h))
