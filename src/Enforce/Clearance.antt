-- ===== src/Enforce/Clearance.antt =====
-- tools_enforce.py: what an answer of `kb_gate_check_fn` says about the consultations before it.
use data_olympus.Base.{
  ℕ, ◌-◌, ◌≤◌, String, Bool, true, false, Option, List, [], ◌∷◌, map, str_mem, if◌then◌else◌, ◌==◌,
  ◌≡◌, ◌≢◌, refl, sym, ap, subst, inl, inr, eq_refl, Bool-cases,
}
use data_olympus.Audit.Log.{Event}
use data_olympus.Enforce.Ledger.{Consultation, explicit_trigger, fresh_signals}
use data_olympus.Enforce.Policy.{signal_family, clears, uncovered_signals, signal_family_coverage}
use data_olympus.Enforce.Support.{SomeOf, IsExplicit, IsCovering, AllFrom, record_consult-AllFrom}
use data_olympus.Enforce.Gate.{
  Setup, Gatekeeper, GateRequest, cleared, gate_clearance_pair, known_trigger, consult_coverage,
  consultation_of, kb_consult, key_of, action_signals, gate_uncovered, judge, judge_governed,
  kb_gate_check, Call, consults, checks, call, calls, new_gatekeeper,
}
use data_olympus.Enforce.Signals.{
  HasClearing, uncovered-clears, clears-HasClearing, fresh_signals-From, is_fresh-From,
}

module _ (s : Setup) where
  abbrev history : List (Call s) → List Consultation
  history [] = []
  history (consults r ∷ cs) = consultation_of s r ∷ history cs
  history (checks q ∷ cs) = history cs

  pub ledger-kb_gate_check :
      (q : GateRequest) (g : Gatekeeper) → (kb_gate_check s q g).0.ledger ≡ g.ledger
  unfolding kb_gate_check
  ledger-kb_gate_check q g = by_signals (action_signals s q)
    where
      by_uncovered : (us : List String) → (judge s q us g).0.ledger ≡ g.ledger
      by_uncovered [] = refl
      by_uncovered (u ∷ us) = refl

      by_signals : (sigs : List String) → (judge_governed s q sigs g).0.ledger ≡ g.ledger
      by_signals [] = refl
      by_signals (sig ∷ sigs) = by_uncovered (gate_uncovered s q g.ledger)

  calls-AllFrom :
      (cs : List (Call s)) (audit : Option (List Event))
      → AllFrom (history cs) (calls s cs (new_gatekeeper audit)).ledger
  unfolding calls call kb_consult
  calls-AllFrom [] audit = tt
  calls-AllFrom (consults r ∷ cs) audit =
      record_consult-AllFrom (history cs) s.retention_sec s.max_entries (consultation_of s r) _
        (calls-AllFrom cs audit)
  calls-AllFrom (checks q ∷ cs) audit =
      subst (AllFrom (history cs))
        (sym (ledger-kb_gate_check q (calls s cs (new_gatekeeper audit)))) (calls-AllFrom cs audit)

  -- an explicit consultation of the same session and workspace within the time to live
  abbrev pub HasConsulted : GateRequest → Call s → Type 0
  HasConsulted q (checks other_check) = ⊥
  HasConsulted q (consults r) =
      (r.source_session ≡ q.session_id)
      × (r.workspace ≡ q.workspace)
      × (known_trigger r.trigger ≡ explicit_trigger)
      × (q.now - r.now ≤ s.ttl_sec)

  -- one whose intent covers the signal
  abbrev pub HasCovered : GateRequest → String → Call s → Type 0
  HasCovered q sig (checks other_check) = ⊥
  HasCovered q sig (consults r) =
      HasConsulted q (consults r)
      × HasClearing (signal_family_coverage s.texts.strip) (consult_coverage s r) sig

  consulted_call :
      (q : GateRequest) (t : ℕ)
      → q.now - t ≤ s.ttl_sec
      → (cs : List (Call s)) → SomeOf (IsExplicit (key_of s q) t) (history cs)
      → SomeOf (HasConsulted q) cs
  unfolding consultation_of
  consulted_call q t recent [] h = h
  consulted_call q t recent (checks p ∷ cs) h = inr (consulted_call q t recent cs h)
  consulted_call q t recent (consults r ∷ cs) (inr h) = inr (consulted_call q t recent cs h)
  consulted_call q t recent (consults r ∷ cs) (inl (key, explicit, time)) =
      inl (ap (λ k. k.session_id) key, ap (λ k. k.workspace) key, explicit, rw time recent)

  covering_call :
      (q : GateRequest) (sig found : String) (t : ℕ)
      → q.now - t ≤ s.ttl_sec
      → clears (signal_family_coverage s.texts.strip) (signal_family found ∷ []) sig ≡ true
      → (cs : List (Call s)) → SomeOf (IsCovering (key_of s q) t found) (history cs)
      → SomeOf (HasCovered q sig) cs
  unfolding consultation_of
  covering_call q sig found t recent clear [] h = h
  covering_call q sig found t recent clear (checks p ∷ cs) h =
      inr (covering_call q sig found t recent clear cs h)
  covering_call q sig found t recent clear (consults r ∷ cs) (inr h) =
      inr (covering_call q sig found t recent clear cs h)
  covering_call q sig found t recent clear (consults r ∷ cs) (inl ((key, explicit, time), mem)) =
      inl (
        (ap (λ k. k.session_id) key, ap (λ k. k.workspace) key, explicit, rw time recent),
        (found, mem, clear),
      )

  -- what an action that is cleared says of its signals
  cleared-gate_uncovered :
      (q : GateRequest) (g : Gatekeeper)
      → (kb_gate_check s q g).1 ≡ cleared
      → (gate_uncovered s q g.ledger ≡ []) × (action_signals s q ≢ [])
  unfolding kb_gate_check
  cleared-gate_uncovered q g h = by_signals (action_signals s q) h
    where
      by_uncovered : (us : List String) → (judge s q us g).1 ≡ cleared → us ≡ []
      by_uncovered [] h = refl
      by_uncovered (u ∷ us) h = cc

      by_signals :
          (sigs : List String)
          → (judge_governed s q sigs g).1 ≡ cleared
          → (gate_uncovered s q g.ledger ≡ []) × (sigs ≢ [])
      by_signals [] h = cc
      by_signals (sig ∷ sigs) h = (by_uncovered (gate_uncovered s q g.ledger) h, λ e. cc)

  -- Under clearance by intent, an action that the gate clears was consulted on: after any calls of
  -- the two tools on an empty ledger, each signal of the action is cleared by a signal that one
  -- explicit consultation of the same session and workspace covers, and that consultation is not
  -- older than the time to live.
  pub kb_gate_check-HasCovered :
      (cs : List (Call s)) (audit : Option (List Event)) (q : GateRequest)
      → (q.clearance == gate_clearance_pair) ≡ false
      → (kb_gate_check s q (calls s cs (new_gatekeeper audit))).1 ≡ cleared
      → (sig : String) → str_mem sig (action_signals s q) ≡ true
      → SomeOf (HasCovered q sig) cs
  unfolding gate_uncovered uncovered_signals
  kb_gate_check-HasCovered cs audit q intent h sig mem =
      let g = calls s cs (new_gatekeeper audit) in
      let fresh = fresh_signals (key_of s q) q.now s.ttl_sec g.ledger in
      let table = signal_family_coverage s.texts.strip in
      let (found, found_mem, clear) = clears-HasClearing table fresh sig (
        uncovered-clears table (map signal_family fresh) (action_signals s q) sig
          (rw intent at (cleared-gate_uncovered q g h).0) mem) in
      let (t, recent, from) =
        fresh_signals-From (history cs) (key_of s q) q.now s.ttl_sec g.ledger found
          (calls-AllFrom cs audit) found_mem in
      covering_call q sig found t recent clear cs from

  covered_consulted :
      (q : GateRequest) (sig : String) (cs : List (Call s))
      → SomeOf (HasCovered q sig) cs
      → SomeOf (HasConsulted q) cs
  covered_consulted q sig [] h = h
  covered_consulted q sig (c ∷ cs) (inr h) = inr (covered_consulted q sig cs h)
  covered_consulted q sig (consults r ∷ cs) (inl h) = inl h.0
  covered_consulted q sig (checks p ∷ cs) (inl h) = inl h

  pair_fresh :
      (fresh : Bool) (sigs : List String)
      → (if fresh then [] else sigs) ≡ []
      → sigs ≢ []
      → fresh ≡ true
  pair_fresh true sigs h some_sigs = refl
  pair_fresh false sigs h some_sigs = absurd (some_sigs h)

  first_mem : (sigs : List String) → sigs ≢ [] → (sig : String) × (str_mem sig sigs ≡ true)
  first_mem [] some_sigs = absurd (some_sigs refl)
  first_mem (sig ∷ sigs) some_sigs = (sig, rw (eq_refl sig) refl)

  -- In each mode of clearance, after any calls of the two tools on an empty ledger, the gate clears
  -- an action only where an explicit consultation of the same session and workspace, not older than
  -- the time to live, is among the calls. No consultation of the prompt hook counts.
  pub kb_gate_check-HasConsulted :
      (cs : List (Call s)) (audit : Option (List Event)) (q : GateRequest)
      → (kb_gate_check s q (calls s cs (new_gatekeeper audit))).1 ≡ cleared
      → SomeOf (HasConsulted q) cs
  unfolding gate_uncovered
  kb_gate_check-HasConsulted cs audit q h =
      let g = calls s cs (new_gatekeeper audit) in
      let (none_left, some_sigs) = cleared-gate_uncovered q g h in
      elim (Bool-cases (q.clearance == gate_clearance_pair)) [
        | inl pair ↦
            let (t, recent, from) =
              is_fresh-From (history cs) (key_of s q) q.now s.ttl_sec g.ledger
                (calls-AllFrom cs audit)
                (pair_fresh _ (action_signals s q) (rw pair at none_left) some_sigs) in
            consulted_call q t recent cs from
        | inr intent ↦
            let (sig, mem) = first_mem (action_signals s q) some_sigs in
            covered_consulted q sig cs (kb_gate_check-HasCovered cs audit q intent h sig mem)
      ]
