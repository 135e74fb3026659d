-- ===== src/Enforce/Store.antt =====
-- enforce_policy.py: `_load` and `_save`, the ledger in its file. The file is written in one step
-- (`os.replace`). A file with a row of another form is not readable.
use data_olympus.Base.{ℕ, String, Option, none, some, List, [], ◌∷◌, map, Dict}
use data_olympus.Enforce.Ledger.{
  Key, LedgerEntry, Entries, Consultation, put_entry, enforce_cap, record_consult,
}

-- `explicit_at` may be absent, null or a time, the next two absent
pub record Row : Type 0 where
  pub session_id : String
  pub workspace : String
  pub consulted_at : ℕ
  pub explicit_at : Option (Option ℕ)
  pub rule_ids : Option (List String)
  pub explicit_signals : Option (Dict ℕ)

pub data LedgerFile : Type 0 where
  missing unreadable : LedgerFile
  rows : List Row → LedgerFile

abbrev pub or_else {ℓ} : {A : Type ℓ} → A → Option A → A
or_else d none = d
or_else d (some a) = a

unfoldable pub entry_of_row : Row → LedgerEntry
entry_of_row r = record {
  consulted_at = r.consulted_at;
  rule_ids = or_else [] r.rule_ids;
  explicit_at = or_else (some r.consulted_at) r.explicit_at;
  explicit_signals = or_else [] r.explicit_signals;
}

abbrev pub key_of_row : Row → Key
key_of_row r = record { session_id = r.session_id; workspace = r.workspace }

-- the rows in order, a later row of a pair over an earlier one
unfoldable pub load_rows : List Row → Entries → Entries
load_rows [] es = es
load_rows (r ∷ rs) es = load_rows rs (put_entry (key_of_row r) (entry_of_row r) es)

unfoldable pub load : LedgerFile → Entries
load missing = []
load unreadable = []
load (rows rs) = load_rows rs []

-- `ConsultationLedger(path)`
unfoldable pub open_ledger : ℕ → LedgerFile → Entries
open_ledger max_entries file = enforce_cap max_entries (load file)

unfoldable pub row_of : Key × LedgerEntry → Row
row_of (k, e) = record {
  session_id = k.session_id;
  workspace = k.workspace;
  consulted_at = e.consulted_at;
  explicit_at = some e.explicit_at;
  rule_ids = some e.rule_ids;
  explicit_signals = some e.explicit_signals;
}

unfoldable pub save : Entries → LedgerFile
save es = rows (map row_of es)

-- `record` of a ledger with a path, and the file after it
unfoldable pub record_saved : ℕ → ℕ → Consultation → Entries → Entries × LedgerFile
record_saved retention_sec max_entries c es =
    let es' = record_consult retention_sec max_entries c es in (es', save es')
