-- ===== src/Enforce/Ledger.antt =====
-- enforce_policy.py: `ConsultationLedger`, as it is in memory. Times are whole numbers, and an age
-- before 0 is 0.
use data_olympus.Base.{
  ℕ, ◌-◌, String, Bool, false, ◌&&◌, Option, none, some, List, [], ◌∷◌, length, Dict, put, ltb, leb,
  if◌then◌else◌, ◌==◌,
}

-- a session and a workspace
pub record Key : Type 0 where
  pub session_id : String
  pub workspace : String

pub record LedgerEntry : Type 0 where
  pub consulted_at : ℕ
  pub rule_ids : List String
  pub explicit_at : Option ℕ
  pub explicit_signals : Dict ℕ

abbrev pub Entries : Type 0
Entries = List (Key × LedgerEntry)

pub record Consultation : Type 0 where
  pub key : Key
  pub rule_ids : List String
  pub now : ℕ
  pub trigger : String
  pub signals : List String

abbrev pub explicit_trigger : String
explicit_trigger = "explicit"

abbrev pub prompt_hook_trigger : String
prompt_hook_trigger = "prompt_hook"

abbrev pub same_key : Key → Key → Bool
same_key j k = (j.session_id == k.session_id) && (j.workspace == k.workspace)

unfoldable pub get : Key → Entries → Option LedgerEntry
get k [] = none
get k ((j, e) ∷ es) = let rest = get k es in if same_key j k then some e else rest

-- an assignment keeps the place of its key
unfoldable pub put_entry : Key → LedgerEntry → Entries → Entries
put_entry k e [] = (k, e) ∷ []
put_entry k e ((j, f) ∷ es) =
    let rest = put_entry k e es in if same_key j k then (k, e) ∷ es else (j, f) ∷ rest

-- `signals.update(dict.fromkeys(names, now))`
unfoldable pub put_all : List String → ℕ → Dict ℕ → Dict ℕ
put_all [] now signals = signals
put_all (name ∷ names) now signals = put_all names now (put name now signals)

unfoldable pub kept_since : ℕ → Dict ℕ → Dict ℕ
kept_since cutoff [] = []
kept_since cutoff ((sig, ts) ∷ signals) =
    let rest = kept_since cutoff signals in if leb cutoff ts then (sig, ts) ∷ rest else rest

abbrev pub prune : ℕ → LedgerEntry → LedgerEntry
prune cutoff e = record e { explicit_signals = kept_since cutoff e.explicit_signals }

-- the entries that can be fresh, each with the signals that can be
unfoldable pub evict_old : ℕ → Entries → Entries
evict_old cutoff [] = []
evict_old cutoff ((k, e) ∷ es) =
    let rest = evict_old cutoff es in
    if leb cutoff e.consulted_at then (k, prune cutoff e) ∷ rest else rest

-- the stable sort of the newest first
unfoldable pub insert_newest : Key × LedgerEntry → Entries → Entries
insert_newest x [] = x ∷ []
insert_newest x (y ∷ ys) =
    let rest = insert_newest x ys in
    if ltb x.1.consulted_at y.1.consulted_at then y ∷ rest else x ∷ y ∷ ys

unfoldable pub newest_first : Entries → Entries
newest_first [] = []
newest_first (x ∷ xs) = insert_newest x (newest_first xs)

unfoldable pub take : ℕ → Entries → Entries
take n [] = []
take n (x ∷ xs) = let rest = take (n - 1) xs in if leb n 0 then [] else x ∷ rest

unfoldable pub enforce_cap : ℕ → Entries → Entries
enforce_cap max_entries es =
    if ltb max_entries (length es) then take max_entries (newest_first es) else es

-- the entry that a record stores over a prior one
abbrev pub prior_explicit : Option LedgerEntry → Option ℕ
prior_explicit none = none
prior_explicit (some e) = e.explicit_at

abbrev pub prior_signals : Option LedgerEntry → Dict ℕ
prior_signals none = []
prior_signals (some e) = e.explicit_signals

unfoldable pub entry_of : Consultation → Option LedgerEntry → LedgerEntry
entry_of c prior =
    let is_explicit = c.trigger == explicit_trigger in
    record {
      consulted_at = c.now;
      rule_ids = c.rule_ids;
      explicit_at = if is_explicit then some c.now else prior_explicit prior;
      explicit_signals =
          if is_explicit
          then put_all c.signals c.now (prior_signals prior)
          else prior_signals prior;
    }

unfoldable pub evict : ℕ → ℕ → ℕ → Entries → Entries
evict retention_sec max_entries now es =
    enforce_cap max_entries (evict_old (now - retention_sec) es)

-- `ConsultationLedger.record`
unfoldable pub record_consult : ℕ → ℕ → Consultation → Entries → Entries
record_consult retention_sec max_entries c es =
    evict retention_sec max_entries c.now (put_entry c.key (entry_of c (get c.key es)) es)

abbrev pub is_recent : ℕ → ℕ → ℕ → Bool
is_recent now ttl_sec ts = leb (now - ts) ttl_sec

abbrev pub recent_opt : ℕ → ℕ → Option ℕ → Bool
recent_opt now ttl_sec none = false
recent_opt now ttl_sec (some ts) = is_recent now ttl_sec ts

abbrev pub entry_fresh : ℕ → ℕ → Bool → Option LedgerEntry → Bool
entry_fresh now ttl_sec require_explicit none = false
entry_fresh now ttl_sec require_explicit (some e) =
    recent_opt now ttl_sec (if require_explicit then e.explicit_at else some e.consulted_at)

unfoldable pub is_fresh : Key → ℕ → ℕ → Bool → Entries → Bool
is_fresh k now ttl_sec require_explicit es = entry_fresh now ttl_sec require_explicit (get k es)

unfoldable pub recent_signals : ℕ → ℕ → Dict ℕ → List String
recent_signals now ttl_sec [] = []
recent_signals now ttl_sec ((sig, ts) ∷ signals) =
    let rest = recent_signals now ttl_sec signals in
    if is_recent now ttl_sec ts then sig ∷ rest else rest

unfoldable pub fresh_signals : Key → ℕ → ℕ → Entries → List String
fresh_signals k now ttl_sec es = recent_signals now ttl_sec (prior_signals (get k es))
