-- ===== src/Enforce/Places.antt =====
-- enforce_policy.py: the entries of the ledger by their keys.
use data_olympus.Base.{
  ℕ, ◌≤◌, true, false, some, [], ◌∷◌, if◌then◌else◌, ◌≡◌, ◌⊎◌, refl, inl, inr, arith, eq_iff,
  Bool-cases,
}
use data_olympus.Enforce.Ledger.{
  Key, LedgerEntry, Entries, same_key, get, put_entry, prune, evict_old,
}

pub get-same_key : (j k : Key) (es : Entries) → same_key j k ≡ true → get j es ≡ get k es
unfolding get
get-same_key j k [] same = refl
get-same_key j k ((i, f) ∷ es) same =
    ground
      (arith, get-same_key j k es, eq_iff j.session_id k.session_id, eq_iff j.workspace k.workspace)

same_key_symm : (j k : Key) → same_key j k ≡ true → same_key k j ≡ true
same_key_symm j k same = ground (
  arith,
  eq_iff j.session_id k.session_id,
  eq_iff k.session_id j.session_id,
  eq_iff j.workspace k.workspace,
  eq_iff k.workspace j.workspace,
)

same_key_trans : (i j k : Key) → same_key i j ≡ true → same_key i k ≡ same_key j k
same_key_trans i j k same =
    ground (arith, eq_iff i.session_id j.session_id, eq_iff i.workspace j.workspace)

same_key_apart : (i j k : Key) → same_key i j ≡ false → same_key i k ≡ true → same_key j k ≡ false
same_key_apart i j k differs is = elim (Bool-cases (same_key j k)) [
  | inl jk ↦ cc (differs, is, jk, same_key_trans i k j is, same_key_symm j k jk)
  | inr isnt ↦ isnt
]

pub get-put_entry :
    (j k : Key) (e : LedgerEntry) (es : Entries)
    → get k (put_entry j e es) ≡ (if same_key j k then some e else get k es)
unfolding get put_entry
get-put_entry j k e [] = ground arith
get-put_entry j k e ((i, f) ∷ es) = elim (Bool-cases (same_key i j)) [
  | inl same ↦ rw (same, same_key_trans i j k same) (by_test (Bool-cases (same_key j k)))
  | inr differs ↦ rw differs (apart (get-put_entry j k e es) differs (Bool-cases (same_key i k)))
]
  where
    by_test :
        (same_key j k ≡ true) ⊎ (same_key j k ≡ false)
        → (if same_key j k then some e else get k es)
          ≡ (if same_key j k then some e else if same_key j k then some f else get k es)
    by_test (inl is) = rw is refl
    by_test (inr isnt) = rw isnt refl

    apart :
        get k (put_entry j e es) ≡ (if same_key j k then some e else get k es)
        → same_key i j ≡ false
        → (same_key i k ≡ true) ⊎ (same_key i k ≡ false)
        → (if same_key i k then some f else get k (put_entry j e es))
          ≡ (if same_key j k then some e else if same_key i k then some f else get k es)
    apart rest differs (inl is) = rw is (rw (same_key_apart i j k differs is) refl)
    apart rest differs (inr isnt) = rw isnt rest

pub get-evict_old :
    (cutoff : ℕ) (k : Key) (e : LedgerEntry) (es : Entries)
    → cutoff ≤ e.consulted_at
    → get k es ≡ some e
    → get k (evict_old cutoff es) ≡ some (prune cutoff e)
unfolding get evict_old
get-evict_old cutoff k e [] new at = cc
get-evict_old cutoff k e ((j, f) ∷ es) new at = elim (Bool-cases (same_key j k)) [
  | inl same ↦ first same (rw same at at)
  | inr differs ↦ rest differs (get-evict_old cutoff k e es new (rw differs at at))
]
  where
    first :
        same_key j k ≡ true
        → some f ≡ some e
        → get k (evict_old cutoff ((j, f) ∷ es)) ≡ some (prune cutoff e)
    first same is = ground arith

    rest :
        same_key j k ≡ false
        → get k (evict_old cutoff es) ≡ some (prune cutoff e)
        → get k (evict_old cutoff ((j, f) ∷ es)) ≡ some (prune cutoff e)
    rest differs later = ground arith
