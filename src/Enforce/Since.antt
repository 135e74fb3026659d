-- ===== src/Enforce/Since.antt =====
-- enforce_policy.py: an entry of the ledger that has the signals of an explicit consultation.
use data_olympus.Base.{
  ℕ, ◌-◌, ◌≤◌, String, true, false, Option, some, List, [], ◌∷◌, Dict, lookup, str_mem, ◌≡◌, ◌⊎◌,
  refl, inl, inr, arith, eq_iff, Bool-cases, ◌==◌,
}
use data_olympus.Enforce.Ledger.{
  LedgerEntry, Consultation, explicit_trigger, kept_since, prune, prior_signals, entry_of,
  recent_signals,
}
use data_olympus.Enforce.Entries.{lookup-put_all}

-- an entry of an explicit consultation at `t` or later, with each of these signals from then
pub record Since (t : ℕ) (coverage : List String) (e : LedgerEntry) : Type 0 where
  pub current : t ≤ e.consulted_at
  pub explicit : (u : ℕ) × (e.explicit_at ≡ some u) × (t ≤ u)
  pub signals :
      (sig : String)
      → str_mem sig coverage ≡ true
      → (u : ℕ) × (lookup sig e.explicit_signals ≡ some u) × (t ≤ u)

lookup-kept_since :
    (cutoff u : ℕ) (signals : Dict ℕ) (sig : String)
    → cutoff ≤ u
    → lookup sig signals ≡ some u
    → lookup sig (kept_since cutoff signals) ≡ some u
unfolding lookup kept_since
lookup-kept_since cutoff u [] sig new at = cc
lookup-kept_since cutoff u ((s, v) ∷ signals) sig new at =
    ground (arith, lookup-kept_since cutoff u signals sig new)

pub prune-Since :
    (cutoff t : ℕ) (coverage : List String) (e : LedgerEntry)
    → cutoff ≤ t
    → Since t coverage e
    → Since t coverage (prune cutoff e)
prune-Since cutoff t coverage e old h = record {
  current = h.current;
  explicit = h.explicit;
  signals = λ sig mem.
      let (u, at, late) = h.signals sig mem in
      (u, lookup-kept_since cutoff u e.explicit_signals sig (omega arith) at, late);
}

-- an explicit consultation starts it, whatever the entry was
pub entry_of-starts :
    (c : Consultation) (prior : Option LedgerEntry)
    → c.trigger ≡ explicit_trigger
    → Since c.now c.signals (entry_of c prior)
unfolding entry_of
entry_of-starts c prior explicit = record {
  current = omega arith;
  explicit = (c.now, rw explicit refl, omega arith);
  signals = λ sig mem. (
    c.now,
    rw explicit (rw (lookup-put_all c.signals c.now (prior_signals prior) sig, mem) refl),
    omega arith,
  );
}

-- a later consultation of the same key keeps it, whatever triggered it
pub entry_of-Since :
    (c : Consultation) (t : ℕ) (coverage : List String) (e : LedgerEntry)
    → t ≤ c.now
    → Since t coverage e
    → Since t coverage (entry_of c (some e))
unfolding entry_of
entry_of-Since c t coverage e later h = elim (Bool-cases (c.trigger == explicit_trigger)) [
  | inl is ↦ record {
    current = later;
    explicit = (c.now, rw is refl, later);
    signals = λ sig mem. by_name sig (Bool-cases (str_mem sig c.signals)) is (h.signals sig mem);
  }
  | inr other ↦ record {
    current = later;
    explicit = let (u, at, late) = h.explicit in (u, rw other at, late);
    signals = λ sig mem. let (u, at, late) = h.signals sig mem in (u, rw other at, late);
  }
]
  where
    by_name :
        (sig : String)
        → (str_mem sig c.signals ≡ true) ⊎ (str_mem sig c.signals ≡ false)
        → (c.trigger == explicit_trigger) ≡ true
        → (u : ℕ) × (lookup sig e.explicit_signals ≡ some u) × (t ≤ u)
        → (u : ℕ) × (lookup sig (entry_of c (some e)).explicit_signals ≡ some u) × (t ≤ u)
    by_name sig (inl named) is (u, at, late) = (
      c.now,
      rw is (rw (lookup-put_all c.signals c.now e.explicit_signals sig, named) refl),
      later,
    )
    by_name sig (inr unnamed) is (u, at, late) =
        (u, rw is (rw (lookup-put_all c.signals c.now e.explicit_signals sig, unnamed) at), late)

-- a signal with its time in the dictionary is fresh
pub recent_signals-lookup :
    (now ttl_sec u : ℕ) (signals : Dict ℕ) (sig : String)
    → now - u ≤ ttl_sec
    → lookup sig signals ≡ some u
    → str_mem sig (recent_signals now ttl_sec signals) ≡ true
unfolding lookup recent_signals
recent_signals-lookup now ttl_sec u [] sig recent found = cc
recent_signals-lookup now ttl_sec u ((s, v) ∷ signals) sig recent found =
    ground
      (arith, eq_iff s sig, eq_iff sig s, recent_signals-lookup now ttl_sec u signals sig recent)
