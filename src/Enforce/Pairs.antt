-- ===== src/Enforce/Pairs.antt =====
-- enforce_policy.py: the pairs of the ledger, through `record`.
use data_olympus.Base.{
  ℕ, ◌-◌, false, [], ◌∷◌, length, ltb, leb, ◌≡◌, subst, inl, inr, arith, eq_iff, Bool-cases,
}
use data_olympus.Enforce.Ledger.{
  Key, LedgerEntry, Entries, Consultation, same_key, put_entry, evict_old, insert_newest,
  newest_first, take, enforce_cap, evict, record_consult,
}
use data_olympus.Enforce.Support.{same_key-eq}

pub same_key_symm : (j k : Key) → same_key j k ≡ false → same_key k j ≡ false
same_key_symm j k h = ground (
  arith,
  eq_iff j.session_id k.session_id,
  eq_iff k.session_id j.session_id,
  eq_iff j.workspace k.workspace,
  eq_iff k.workspace j.workspace,
)

abbrev pub NoneOf : Key → Entries → Type 0
NoneOf k [] = Unit
NoneOf k ((j, e) ∷ es) = (same_key j k ≡ false) × NoneOf k es

-- no pair twice
abbrev pub DistinctKeys : Entries → Type 0
DistinctKeys [] = Unit
DistinctKeys ((k, e) ∷ es) = NoneOf k es × DistinctKeys es

put_entry-NoneOf :
    (k j : Key) (e : LedgerEntry) (es : Entries)
    → same_key j k ≡ false
    → NoneOf k es
    → NoneOf k (put_entry j e es)
unfolding put_entry
put_entry-NoneOf k j e [] d h = (d, tt)
put_entry-NoneOf k j e ((i, f) ∷ es) d (n, h) = elim (Bool-cases (same_key i j)) [
  | inl same ↦ rw same (d, h)
  | inr differs ↦ rw differs (n, put_entry-NoneOf k j e es d h)
]

pub put_entry-DistinctKeys :
    (k : Key) (e : LedgerEntry) (es : Entries) → DistinctKeys es → DistinctKeys (put_entry k e es)
unfolding put_entry
put_entry-DistinctKeys k e [] d = (tt, tt)
put_entry-DistinctKeys k e ((j, f) ∷ es) (n, d) = elim (Bool-cases (same_key j k)) [
  | inl same ↦ rw same (subst (λ i. NoneOf i es) (same_key-eq j k same) n, d)
  | inr differs ↦
      rw differs
        (put_entry-NoneOf j k e es (same_key_symm j k differs) n, put_entry-DistinctKeys k e es d)
]

evict_old-NoneOf :
    (k : Key) (cutoff : ℕ) (es : Entries) → NoneOf k es → NoneOf k (evict_old cutoff es)
unfolding evict_old
evict_old-NoneOf k cutoff [] h = tt
evict_old-NoneOf k cutoff ((j, e) ∷ es) (n, h) = elim (Bool-cases (leb cutoff e.consulted_at)) [
  | inl new ↦ rw new (n, evict_old-NoneOf k cutoff es h)
  | inr old ↦ rw old (evict_old-NoneOf k cutoff es h)
]

evict_old-DistinctKeys :
    (cutoff : ℕ) (es : Entries) → DistinctKeys es → DistinctKeys (evict_old cutoff es)
unfolding evict_old
evict_old-DistinctKeys cutoff [] d = tt
evict_old-DistinctKeys cutoff ((j, e) ∷ es) (n, d) = elim (Bool-cases (leb cutoff e.consulted_at)) [
  | inl new ↦ rw new (evict_old-NoneOf j cutoff es n, evict_old-DistinctKeys cutoff es d)
  | inr old ↦ rw old (evict_old-DistinctKeys cutoff es d)
]

insert_newest-NoneOf :
    (k j : Key) (e : LedgerEntry) (es : Entries)
    → same_key j k ≡ false
    → NoneOf k es
    → NoneOf k (insert_newest (j, e) es)
unfolding insert_newest
insert_newest-NoneOf k j e [] d h = (d, tt)
insert_newest-NoneOf k j e ((i, f) ∷ es) d (n, h) =
    elim (Bool-cases (ltb e.consulted_at f.consulted_at)) [
      | inl older ↦ rw older (n, insert_newest-NoneOf k j e es d h)
      | inr newer ↦ rw newer (d, (n, h))
    ]

newest_first-NoneOf : (k : Key) (es : Entries) → NoneOf k es → NoneOf k (newest_first es)
unfolding newest_first
newest_first-NoneOf k [] h = tt
newest_first-NoneOf k ((j, e) ∷ es) (n, h) =
    insert_newest-NoneOf k j e (newest_first es) n (newest_first-NoneOf k es h)

insert_newest-DistinctKeys :
    (k : Key) (e : LedgerEntry) (es : Entries)
    → NoneOf k es
    → DistinctKeys es
    → DistinctKeys (insert_newest (k, e) es)
unfolding insert_newest
insert_newest-DistinctKeys k e [] n d = (tt, tt)
insert_newest-DistinctKeys k e ((j, f) ∷ es) (n, ns) (nj, d) =
    elim (Bool-cases (ltb e.consulted_at f.consulted_at)) [
      | inl older ↦ rw older (
        insert_newest-NoneOf j k e es (same_key_symm j k n) nj,
        insert_newest-DistinctKeys k e es ns d,
      )
      | inr newer ↦ rw newer ((n, ns), (nj, d))
    ]

newest_first-DistinctKeys : (es : Entries) → DistinctKeys es → DistinctKeys (newest_first es)
unfolding newest_first
newest_first-DistinctKeys [] d = tt
newest_first-DistinctKeys ((k, e) ∷ es) (n, d) =
    insert_newest-DistinctKeys k e (newest_first es) (newest_first-NoneOf k es n)
      (newest_first-DistinctKeys es d)

take-NoneOf : (k : Key) (n : ℕ) (es : Entries) → NoneOf k es → NoneOf k (take n es)
unfolding take
take-NoneOf k n [] h = tt
take-NoneOf k n ((j, e) ∷ es) (d, h) = elim (Bool-cases (leb n 0)) [
  | inl full ↦ rw full tt
  | inr free ↦ rw free (d, take-NoneOf k (n - 1) es h)
]

take-DistinctKeys : (n : ℕ) (es : Entries) → DistinctKeys es → DistinctKeys (take n es)
unfolding take
take-DistinctKeys n [] d = tt
take-DistinctKeys n ((j, e) ∷ es) (h, d) = elim (Bool-cases (leb n 0)) [
  | inl full ↦ rw full tt
  | inr free ↦ rw free (take-NoneOf j (n - 1) es h, take-DistinctKeys (n - 1) es d)
]

pub enforce_cap-DistinctKeys :
    (max_entries : ℕ) (es : Entries) → DistinctKeys es → DistinctKeys (enforce_cap max_entries es)
unfolding enforce_cap
enforce_cap-DistinctKeys max_entries es d = elim (Bool-cases (ltb max_entries (length es))) [
  | inl over ↦
      rw over (take-DistinctKeys max_entries (newest_first es) (newest_first-DistinctKeys es d))
  | inr within ↦ rw within d
]

pub record_consult-DistinctKeys :
    (retention_sec max_entries : ℕ) (c : Consultation) (es : Entries)
    → DistinctKeys es
    → DistinctKeys (record_consult retention_sec max_entries c es)
unfolding record_consult evict
record_consult-DistinctKeys retention_sec max_entries c es d =
    enforce_cap-DistinctKeys max_entries _
      (evict_old-DistinctKeys (c.now - retention_sec) _ (put_entry-DistinctKeys c.key _ es d))
