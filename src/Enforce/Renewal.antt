-- ===== src/Enforce/Renewal.antt =====
-- tools_enforce.py: what a consultation does to the answers of `kb_gate_check_fn` after it.
use data_olympus.Base.{
  ℕ, ◌+◌, ◌-◌, ◌≤◌, String, true, List, [], ◌∷◌, length, str_mem, ◌==◌, ◌≡◌, ◌≢◌, refl, ap, subst,
  inl, inr, arith, Bool-cases,
}
use data_olympus.Enforce.Ledger.{Key, explicit_trigger, record_consult, is_fresh, fresh_signals}
use data_olympus.Enforce.Policy.{uncovered_signals, signal_family_coverage}
use data_olympus.Enforce.Signals.{HasClearing}
use data_olympus.Enforce.Gate.{
  Setup, Gatekeeper, ConsultRequest, GateRequest, cleared, gate_clearance_pair, Call, consults,
  checks, call, calls, known_trigger, consult_coverage, consultation_of, kb_consult, key_of,
  action_signals, gate_uncovered, judge, judge_governed, kb_gate_check,
}
use data_olympus.Enforce.Entries.{leb-true, clears-more, uncovered-none}
use data_olympus.Enforce.Clearance.{ledger-kb_gate_check}
use data_olympus.Enforce.Since.{recent_signals-lookup}
use data_olympus.Enforce.Lasting.{
  Holds, record_consult-starts, record_consult-Holds, length-record_consult,
}

module _ (s : Setup) where
  verdict-judge_governed :
      (q : GateRequest) (g : Gatekeeper) (us : List String)
      → gate_uncovered s q g.ledger ≡ us
      → action_signals s q ≢ []
      → (kb_gate_check s q g).1 ≡ (judge s q us g).1
  unfolding kb_gate_check
  verdict-judge_governed q g us is some_sigs = by_signals (action_signals s q) some_sigs
    where
      by_signals :
          (sigs : List String) → sigs ≢ [] → (judge_governed s q sigs g).1 ≡ (judge s q us g).1
      by_signals [] some_sigs = absurd (some_sigs refl)
      by_signals (sig ∷ sigs) some_sigs = ap (λ us. (judge s q us g).1) is

  pub consult_key :
      (r : ConsultRequest) (q : GateRequest)
      → r.source_session ≡ q.session_id
      → r.workspace ≡ q.workspace
      → (consultation_of s r).key ≡ key_of s q
  unfolding consultation_of
  consult_key r q session workspace = cc

  -- the times of the consultations among the calls
  abbrev pub AllBetween : ℕ → ℕ → List (Call s) → Type 0
  AllBetween t t' [] = Unit {0}
  AllBetween t t' (consults r ∷ cs) = ((t ≤ r.now) × (r.now ≤ t')) × AllBetween t t' cs
  AllBetween t t' (checks q ∷ cs) = AllBetween t t' cs

  -- the calls keep what the ledger holds, and it grows by an entry at most with each of them
  calls-Holds :
      (cs : List (Call s)) (g : Gatekeeper) (t t' : ℕ) (k : Key) (coverage : List String)
      → t' - s.retention_sec ≤ t
      → AllBetween t t' cs
      → length g.ledger + length cs ≤ s.max_entries
      → Holds t k coverage g.ledger
      → Holds t k coverage (calls s cs g).ledger
        × (length (calls s cs g).ledger ≤ length g.ledger + length cs)
  unfolding calls call kb_consult consultation_of
  calls-Holds [] g t t' k coverage retained times room h = (h, omega arith)
  calls-Holds (consults r ∷ cs) g t t' k coverage retained ((late, early), times) room h =
      let (held, size) = calls-Holds cs g t t' k coverage retained times (omega arith) h in
      let free : length (calls s cs g).ledger + 1 ≤ s.max_entries = omega arith in
      let grown =
        length-record_consult s.retention_sec s.max_entries (consultation_of s r)
          (calls s cs g).ledger free in
      (
        record_consult-Holds s.retention_sec s.max_entries (consultation_of s r)
            (calls s cs g).ledger free t k coverage late (omega arith) held,
        omega arith,
      )
  calls-Holds (checks q ∷ cs) g t t' k coverage retained times room h =
      let (held, size) = calls-Holds cs g t t' k coverage retained times (omega arith) h in
      rw (ledger-kb_gate_check s q (calls s cs g)) (held, omega arith)

  kb_consult-Holds :
      (r : ConsultRequest) (g : Gatekeeper) (k : Key)
      → (consultation_of s r).key ≡ k
      → length g.ledger + 1 ≤ s.max_entries
      → known_trigger r.trigger ≡ explicit_trigger
      → Holds r.now k (consult_coverage s r) (kb_consult s r g).0.ledger
        × (length (kb_consult s r g).0.ledger ≤ length g.ledger + 1)
  unfolding kb_consult consultation_of
  kb_consult-Holds r g k same room explicit = (
    subst
        (λ i.
          Holds r.now i (consult_coverage s r)
            (record_consult s.retention_sec s.max_entries (consultation_of s r) g.ledger))
        same
        (record_consult-starts s.retention_sec s.max_entries (consultation_of s r) g.ledger room
          explicit),
    length-record_consult s.retention_sec s.max_entries (consultation_of s r) g.ledger room,
  )

  -- what is held from a time that is recent clears the gate, in each mode of clearance
  Holds-uncovered :
      (q : GateRequest) (g : Gatekeeper) (t : ℕ) (coverage : List String)
      → q.now - t ≤ s.ttl_sec
      → Holds t (key_of s q) coverage g.ledger
      → ((sig : String)
          → str_mem sig (action_signals s q) ≡ true
          → HasClearing (signal_family_coverage s.texts.strip) coverage sig)
      → gate_uncovered s q g.ledger ≡ []
  unfolding gate_uncovered uncovered_signals is_fresh fresh_signals
  Holds-uncovered q g t coverage recent (e, at, since) covers =
      elim (Bool-cases (q.clearance == gate_clearance_pair)) [
        | inl pair ↦
            let (u, is, late) = since.explicit in
            rw (pair, at, is) (rw (leb-true (q.now - u) s.ttl_sec (omega arith)) refl)
        | inr intent ↦ rw intent (
            uncovered-none (signal_family_coverage s.texts.strip) _ (action_signals s q) (λ sig mem.
              let (found, found_mem, clear) = covers sig mem in
              let (u, is, late) = since.signals found found_mem in
              clears-more (signal_family_coverage s.texts.strip) _ found sig
                (rw at (
                  recent_signals-lookup q.now s.ttl_sec u e.explicit_signals found (omega arith)
                    is))
                clear))
      ]

  -- An explicit consultation clears the gate, in each mode of clearance: after it and any later calls
  -- of the two tools, by any session, an action of the same session and workspace whose signals its
  -- intent covers is cleared until the time to live is over, whatever the ledger held. The later
  -- consultations have times between the two, entries are retained at least for the time to live, and
  -- the ledger has room for one more entry with each of the calls.
  pub kb_consult-cleared :
      (r : ConsultRequest) (g : Gatekeeper) (q : GateRequest) (later : List (Call s))
      → known_trigger r.trigger ≡ explicit_trigger
      → r.source_session ≡ q.session_id
      → r.workspace ≡ q.workspace
      → length g.ledger + 1 + length later ≤ s.max_entries
      → s.ttl_sec ≤ s.retention_sec
      → AllBetween r.now q.now later
      → q.now - r.now ≤ s.ttl_sec
      → action_signals s q ≢ []
      → ((sig : String)
          → str_mem sig (action_signals s q) ≡ true
          → HasClearing (signal_family_coverage s.texts.strip) (consult_coverage s r) sig)
      → (kb_gate_check s q (calls s later (kb_consult s r g).0)).1 ≡ cleared
  kb_consult-cleared r g q later explicit session workspace room long times recent some_sigs
        covers =
      let same = consult_key r q session workspace in
      let (started, size) = kb_consult-Holds r g (key_of s q) same (omega arith) explicit in
      let (held, _) =
        calls-Holds later (kb_consult s r g).0 r.now q.now (key_of s q) (consult_coverage s r)
          (omega arith) times (omega arith) started in
      verdict-judge_governed q (calls s later (kb_consult s r g).0) []
        (Holds-uncovered q (calls s later (kb_consult s r g).0) r.now (consult_coverage s r) recent
          held covers)
        some_sigs
