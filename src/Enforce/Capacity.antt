-- ===== src/Enforce/Capacity.antt =====
-- enforce_policy.py: the size of the ledger under `_evict` and `_enforce_cap`.
use data_olympus.Base.{
  ℕ, ◌+◌, ◌-◌, ◌≤◌, Option, List, [], ◌∷◌, length, ltb, leb, ◌≡◌, inl, inr, arith, Bool-cases,
}
use data_olympus.Audit.Log.{Event}
use data_olympus.Enforce.Ledger.{
  Key, LedgerEntry, Entries, Consultation, put_entry, evict_old, take, newest_first, enforce_cap,
  evict, record_consult,
}
use data_olympus.Enforce.Gate.{
  Setup, kb_consult, Call, consults, checks, call, calls, new_gatekeeper,
}
use data_olympus.Enforce.Clearance.{ledger-kb_gate_check}

length-take : (n : ℕ) (es : Entries) → length (take n es) ≤ n
unfolding take
length-take n [] = ground arith
length-take n (x ∷ xs) = elim (Bool-cases (leb n 0)) [
  | inl full ↦ rw full (ground arith)
  | inr free ↦ rw free (ground (arith, length-take (n - 1) xs))
]

pub length-enforce_cap :
    (max_entries : ℕ) (es : Entries) → length (enforce_cap max_entries es) ≤ max_entries
unfolding enforce_cap
length-enforce_cap max_entries es = elim (Bool-cases (ltb max_entries (length es))) [
  | inl over ↦ rw over (length-take max_entries (newest_first es))
  | inr within ↦ rw within (ground arith)
]

-- within the cap, the cap does nothing
pub enforce_cap-within :
    (max_entries : ℕ) (es : Entries) → length es ≤ max_entries → enforce_cap max_entries es ≡ es
unfolding enforce_cap
enforce_cap-within max_entries es h = ground arith

pub length-evict_old : (cutoff : ℕ) (es : Entries) → length (evict_old cutoff es) ≤ length es
unfolding evict_old
length-evict_old cutoff [] = ground arith
length-evict_old cutoff ((k, e) ∷ es) = ground (arith, length-evict_old cutoff es)

pub length-put_entry :
    (k : Key) (e : LedgerEntry) (es : Entries) → length (put_entry k e es) ≤ length es + 1
unfolding put_entry
length-put_entry k e [] = ground arith
length-put_entry k e ((j, f) ∷ es) = ground (arith, length-put_entry k e es)

pub length-record_consult :
    (retention_sec max_entries : ℕ) (c : Consultation) (es : Entries)
    → length (record_consult retention_sec max_entries c es) ≤ max_entries
unfolding record_consult evict
length-record_consult retention_sec max_entries c es = length-enforce_cap max_entries _

module _ (s : Setup) where
  -- After any calls of the two tools on an empty ledger, the ledger has at most `max_entries`
  -- entries.
  pub length-calls :
      (cs : List (Call s)) (audit : Option (List Event))
      → length (calls s cs (new_gatekeeper audit)).ledger ≤ s.max_entries
  unfolding calls call kb_consult
  length-calls [] audit = ground arith
  length-calls (consults r ∷ cs) audit = length-record_consult s.retention_sec s.max_entries _ _
  length-calls (checks q ∷ cs) audit =
      rw (ledger-kb_gate_check s q (calls s cs (new_gatekeeper audit))) (length-calls cs audit)
