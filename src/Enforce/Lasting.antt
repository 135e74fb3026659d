-- ===== src/Enforce/Lasting.antt =====
-- enforce_policy.py: what the ledger keeps of an explicit consultation while others are recorded.
use data_olympus.Base.{
  ℕ, ◌+◌, ◌-◌, ◌≤◌, String, true, false, some, List, length, ◌≡◌, ◌⊎◌, refl, ap, ◌∙◌, inl, inr,
  arith, Bool-cases,
}
use data_olympus.Enforce.Ledger.{
  Key, LedgerEntry, Entries, Consultation, explicit_trigger, same_key, get, put_entry, prune,
  evict_old, entry_of, evict, record_consult,
}
use data_olympus.Enforce.Entries.{same_key_refl}
use data_olympus.Enforce.Capacity.{enforce_cap-within, length-evict_old, length-put_entry}
use data_olympus.Enforce.Since.{Since, prune-Since, entry_of-starts, entry_of-Since}
use data_olympus.Enforce.Places.{get-same_key, get-put_entry, get-evict_old}

abbrev pub Holds : ℕ → Key → List String → Entries → Type 0
Holds t k coverage es = (e : LedgerEntry) × (get k es ≡ some e) × Since t coverage e

trans_le : {a b c : ℕ} → a ≤ b → b ≤ c → a ≤ c
trans_le ab bc = omega arith

module _ (retention_sec max_entries : ℕ) (c : Consultation) (es : Entries)
    (room : length es + 1 ≤ max_entries) where
  after_eviction :
      (k : Key) (e : LedgerEntry)
      → c.now - retention_sec ≤ e.consulted_at
      → get k (put_entry c.key (entry_of c (get c.key es)) es) ≡ some e
      → get k (record_consult retention_sec max_entries c es)
        ≡ some (prune (c.now - retention_sec) e)
  unfolding record_consult evict
  after_eviction k e new at =
      let stored = put_entry c.key (entry_of c (get c.key es)) es in
      ap (get k) (
        enforce_cap-within max_entries (evict_old (c.now - retention_sec) stored) (
          ground (
            arith,
            length-evict_old (c.now - retention_sec) stored,
            length-put_entry c.key (entry_of c (get c.key es)) es,
          )))
      ∙ get-evict_old (c.now - retention_sec) k e stored new at

  -- the entry that `record` leaves
  pub get-record_consult :
      get c.key (record_consult retention_sec max_entries c es)
      ≡ some (prune (c.now - retention_sec) (entry_of c (get c.key es)))
  unfolding entry_of
  get-record_consult =
      let e = entry_of c (get c.key es) in
      after_eviction c.key e (omega arith)
        (get-put_entry c.key c.key e es ∙ rw (same_key_refl c.key) refl)

  -- from here on the ledger holds an explicit consultation
  pub record_consult-starts :
      c.trigger ≡ explicit_trigger
      → Holds c.now c.key c.signals (record_consult retention_sec max_entries c es)
  record_consult-starts explicit =
      let e = entry_of c (get c.key es) in
      let cutoff = c.now - retention_sec in
      (
        prune cutoff e,
        get-record_consult,
        prune-Since cutoff c.now c.signals e (omega arith)
            (entry_of-starts c (get c.key es) explicit),
      )

  -- and another consultation keeps it, where what is so old is still retained
  pub record_consult-Holds :
      (t : ℕ) (k : Key) (coverage : List String)
      → t ≤ c.now
      → c.now - retention_sec ≤ t
      → Holds t k coverage es
      → Holds t k coverage (record_consult retention_sec max_entries c es)
  record_consult-Holds t k coverage later retained (e, at, since) =
      by_key (Bool-cases (same_key c.key k))
    where
      keep :
          (f : LedgerEntry)
          → Since t coverage f
          → get k (put_entry c.key (entry_of c (get c.key es)) es) ≡ some f
          → Holds t k coverage (record_consult retention_sec max_entries c es)
      keep f holds is =
          let current : c.now - retention_sec ≤ f.consulted_at = trans_le retained holds.current in
          (
            prune (c.now - retention_sec) f,
            after_eviction k f current is,
            prune-Since (c.now - retention_sec) t coverage f retained holds,
          )

      by_key :
          (same_key c.key k ≡ true) ⊎ (same_key c.key k ≡ false)
          → Holds t k coverage (record_consult retention_sec max_entries c es)
      by_key (inl same) =
          let there : get c.key es ≡ some e = get-same_key c.key k es same ∙ at in
          keep (entry_of c (some e)) (entry_of-Since c t coverage e later since)
            (get-put_entry c.key k (entry_of c (get c.key es)) es ∙ rw (same, there) refl)
      by_key (inr differs) =
          keep e since (get-put_entry c.key k (entry_of c (get c.key es)) es ∙ rw differs at)

pub length-record_consult :
    (retention_sec max_entries : ℕ) (c : Consultation) (es : Entries)
    → length es + 1 ≤ max_entries
    → length (record_consult retention_sec max_entries c es) ≤ length es + 1
unfolding record_consult evict
length-record_consult retention_sec max_entries c es room =
    let stored = put_entry c.key (entry_of c (get c.key es)) es in
    ground (
      arith,
      enforce_cap-within max_entries (evict_old (c.now - retention_sec) stored),
      length-evict_old (c.now - retention_sec) stored,
      length-put_entry c.key (entry_of c (get c.key es)) es,
    )
