-- ===== src/Enforce/Restart.antt =====
-- enforce_policy.py: a ledger that is opened again from the file that it has written.
use data_olympus.Base.{ℕ, ◌≤◌, false, List, [], ◌∷◌, ◌++◌, map, length, ◌≡◌, refl, sym, ap, ◌∙◌}
use mathlib.Core.List.{append_assoc, append-nil}
use data_olympus.Enforce.Ledger.{
  Key, LedgerEntry, Entries, Consultation, same_key, put_entry, enforce_cap,
}
use data_olympus.Enforce.Capacity.{enforce_cap-within, length-record_consult}
use data_olympus.Enforce.Pairs.{
  same_key_symm, NoneOf, DistinctKeys, put_entry-DistinctKeys, enforce_cap-DistinctKeys,
  record_consult-DistinctKeys,
}
use data_olympus.Enforce.Store.{
  Row, LedgerFile, missing, unreadable, rows, entry_of_row, load_rows, load, open_ledger, row_of,
  save, record_saved,
}

load_rows-DistinctKeys :
    (rs : List Row) (es : Entries) → DistinctKeys es → DistinctKeys (load_rows rs es)
unfolding load_rows
load_rows-DistinctKeys [] es d = d
load_rows-DistinctKeys (r ∷ rs) es d = load_rows-DistinctKeys rs _ (put_entry-DistinctKeys _ _ es d)

load-DistinctKeys : (file : LedgerFile) → DistinctKeys (load file)
unfolding load
load-DistinctKeys missing = tt
load-DistinctKeys unreadable = tt
load-DistinctKeys (rows rs) = load_rows-DistinctKeys rs [] tt

put_entry-last :
    (k : Key) (e : LedgerEntry) (es : Entries) → NoneOf k es → put_entry k e es ≡ es ++ (k, e) ∷ []
unfolding put_entry
put_entry-last k e [] h = refl
put_entry-last k e ((j, f) ∷ es) (d, h) = rw d (ap (◌∷◌ (j, f)) (put_entry-last k e es h))

-- no pair of the first list is in the second
abbrev Apart : Entries → Entries → Type 0
Apart [] acc = Unit
Apart ((k, e) ∷ es) acc = NoneOf k acc × Apart es acc

NoneOf-last :
    (k j : Key) (e : LedgerEntry) (es : Entries)
    → NoneOf k es
    → same_key j k ≡ false
    → NoneOf k (es ++ (j, e) ∷ [])
NoneOf-last k j e [] h d = (d, tt)
NoneOf-last k j e ((i, f) ∷ es) (n, h) d = (n, NoneOf-last k j e es h d)

Apart-last :
    (k : Key) (e : LedgerEntry) (es acc : Entries)
    → NoneOf k es
    → Apart es acc
    → Apart es (acc ++ (k, e) ∷ [])
Apart-last k e [] acc n a = tt
Apart-last k e ((j, f) ∷ es) acc (d, n) (h, a) =
    (NoneOf-last j k e acc h (same_key_symm j k d), Apart-last k e es acc n a)

load_rows-row_of :
    (es acc : Entries) → DistinctKeys es → Apart es acc → load_rows (map row_of es) acc ≡ acc ++ es
unfolding load_rows row_of entry_of_row
load_rows-row_of [] acc d a = sym (append-nil acc)
load_rows-row_of ((k, e) ∷ es) acc (n, d) (h, a) =
    ap (load_rows (map row_of es)) (put_entry-last k e acc h)
    ∙ (load_rows-row_of es (acc ++ (k, e) ∷ []) d (Apart-last k e es acc n a)
        ∙ append_assoc acc ((k, e) ∷ []) es)

Apart-nil : (es : Entries) → Apart es []
Apart-nil [] = tt
Apart-nil ((k, e) ∷ es) = (tt, Apart-nil es)

module _ (retention_sec max_entries : ℕ) where
  -- the ledger and its file after these records, the latest one first
  unfoldable pub records : List Consultation → LedgerFile → Entries × LedgerFile
  records [] file = (open_ledger max_entries file, file)
  records (c ∷ cs) file = record_saved retention_sec max_entries c (records cs file).0

  records-DistinctKeys :
      (cs : List Consultation) (file : LedgerFile) → DistinctKeys (records cs file).0
  unfolding records record_saved open_ledger
  records-DistinctKeys [] file = enforce_cap-DistinctKeys max_entries _ (load-DistinctKeys file)
  records-DistinctKeys (c ∷ cs) file =
      record_consult-DistinctKeys retention_sec max_entries c _ (records-DistinctKeys cs file)

  open_ledger-save :
      (es : Entries)
      → DistinctKeys es
      → length es ≤ max_entries
      → open_ledger max_entries (save es) ≡ es
  unfolding open_ledger load save
  open_ledger-save es d h =
      ap (enforce_cap max_entries) (load_rows-row_of es [] d (Apart-nil es))
      ∙ enforce_cap-within max_entries es h

  -- A restart keeps the ledger: after any records of a ledger that was opened from any file, opening
  -- the file again gives the ledger that is in memory.
  pub open_ledger-records :
      (cs : List Consultation) (file : LedgerFile)
      → open_ledger max_entries (records cs file).1 ≡ (records cs file).0
  unfolding records record_saved
  open_ledger-records [] file = refl
  open_ledger-records (c ∷ cs) file =
      open_ledger-save _ (records-DistinctKeys (c ∷ cs) file)
        (length-record_consult retention_sec max_entries c _)
