-- ===== src/Enforce/Hooks.antt =====
-- tools_enforce.py: what a consultation of the prompt hook does to the answers after it.
use data_olympus.Base.{
  ℕ, ◌+◌, ◌-◌, ◌≤◌, String, true, Option, none, some, List, [], ◌∷◌, length, Dict, ◌≡◌, refl, ap,
  ◌∙◌, subst, arith,
}
use data_olympus.Enforce.Ledger.{
  Key, LedgerEntry, prompt_hook_trigger, get, kept_since, prune, prior_explicit, prior_signals,
  entry_of, record_consult, recent_opt, entry_fresh, is_fresh, recent_signals, fresh_signals,
}
use data_olympus.Enforce.Gate.{
  Setup, Gatekeeper, ConsultRequest, GateRequest, known_trigger, consultation_of, kb_consult,
  key_of, action_signals, gate_uncovered, judge, judge_governed, kb_gate_check,
}
use data_olympus.Enforce.Lasting.{get-record_consult}
use data_olympus.Enforce.Renewal.{consult_key}

-- an eviction drops only what is stale
recent_signals-kept_since :
    (now ttl_sec cutoff : ℕ) (signals : Dict ℕ)
    → cutoff ≤ now - ttl_sec
    → recent_signals now ttl_sec (kept_since cutoff signals) ≡ recent_signals now ttl_sec signals
unfolding recent_signals kept_since
recent_signals-kept_since now ttl_sec cutoff [] h = refl
recent_signals-kept_since now ttl_sec cutoff ((s, u) ∷ signals) h =
    ground (arith, recent_signals-kept_since now ttl_sec cutoff signals h)

module _ (s : Setup) where
  same_verdict :
      (q : GateRequest) (g g' : Gatekeeper)
      → gate_uncovered s q g.ledger ≡ gate_uncovered s q g'.ledger
      → (kb_gate_check s q g).1 ≡ (kb_gate_check s q g').1
  unfolding kb_gate_check
  same_verdict q g g' is = by_signals (action_signals s q)
    where
      by_uncovered : (us : List String) → (judge s q us g).1 ≡ (judge s q us g').1
      by_uncovered [] = refl
      by_uncovered (u ∷ us) = refl

      by_signals :
          (sigs : List String) → (judge_governed s q sigs g).1 ≡ (judge_governed s q sigs g').1
      by_signals [] = refl
      by_signals (sig ∷ sigs) =
          ap (λ us. (judge s q us g).1) is ∙ by_uncovered (gate_uncovered s q g'.ledger)

  -- the entry of the pair after a consultation
  get-kb_consult :
      (r : ConsultRequest) (g : Gatekeeper) (k : Key)
      → (consultation_of s r).key ≡ k
      → length g.ledger + 1 ≤ s.max_entries
      → get k (kb_consult s r g).0.ledger
        ≡ some (prune (r.now - s.retention_sec) (entry_of (consultation_of s r) (get k g.ledger)))
  unfolding kb_consult consultation_of
  get-kb_consult r g k same room =
      subst
        (λ i.
          get i (record_consult s.retention_sec s.max_entries (consultation_of s r) g.ledger)
          ≡ some
              (prune (r.now - s.retention_sec) (entry_of (consultation_of s r) (get i g.ledger))))
        same (get-record_consult s.retention_sec s.max_entries (consultation_of s r) g.ledger room)

  hook_signals :
      (r : ConsultRequest) (g : Gatekeeper) (k : Key) (now : ℕ)
      → (consultation_of s r).key ≡ k
      → length g.ledger + 1 ≤ s.max_entries
      → known_trigger r.trigger ≡ prompt_hook_trigger
      → s.ttl_sec ≤ s.retention_sec
      → r.now ≤ now
      → fresh_signals k now s.ttl_sec (kb_consult s r g).0.ledger
        ≡ fresh_signals k now s.ttl_sec g.ledger
  unfolding fresh_signals entry_of consultation_of
  hook_signals r g k now same room hook long later = rw (get-kb_consult r g k same room) (
      rw hook (
        recent_signals-kept_since now s.ttl_sec (r.now - s.retention_sec)
          (prior_signals (get k g.ledger)) (omega arith)))

  hook_time :
      (r : ConsultRequest) (g : Gatekeeper) (k : Key) (now : ℕ)
      → (consultation_of s r).key ≡ k
      → length g.ledger + 1 ≤ s.max_entries
      → known_trigger r.trigger ≡ prompt_hook_trigger
      → is_fresh k now s.ttl_sec true (kb_consult s r g).0.ledger
        ≡ is_fresh k now s.ttl_sec true g.ledger
  unfolding is_fresh entry_of consultation_of
  hook_time r g k now same room hook =
      rw (get-kb_consult r g k same room) (rw hook (by_prior (get k g.ledger)))
    where
      by_prior :
          (prior : Option LedgerEntry)
          → recent_opt now s.ttl_sec (prior_explicit prior) ≡ entry_fresh now s.ttl_sec true prior
      by_prior none = refl
      by_prior (some e) = refl

  -- A consultation of the prompt hook changes no answer of the gate: a later action of the same
  -- session and workspace gets the verdict that it would get without it, in each mode of clearance,
  -- where entries are retained at least for the time to live and the ledger has room for one more
  -- entry.
  pub kb_consult-kb_gate_check :
      (r : ConsultRequest) (g : Gatekeeper) (q : GateRequest)
      → known_trigger r.trigger ≡ prompt_hook_trigger
      → r.source_session ≡ q.session_id
      → r.workspace ≡ q.workspace
      → length g.ledger + 1 ≤ s.max_entries
      → s.ttl_sec ≤ s.retention_sec
      → r.now ≤ q.now
      → (kb_gate_check s q (kb_consult s r g).0).1 ≡ (kb_gate_check s q g).1
  unfolding gate_uncovered
  kb_consult-kb_gate_check r g q hook session workspace room long later =
      same_verdict q (kb_consult s r g).0 g (
        rw
          (
            hook_signals r g (key_of s q) q.now same room hook long later,
            hook_time r g (key_of s q) q.now same room hook,
          )
          refl)
    where
      same : (consultation_of s r).key ≡ key_of s q
      same = consult_key s r q session workspace
