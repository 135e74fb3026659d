-- ===== src/Enforce/Gate.antt =====
-- tools_enforce.py: `kb_consult_fn` and `kb_gate_check_fn`. The audit log is the list of the events
-- that are appended to it. The search of the index for the governing rules, `s[:n]` and the JSON text
-- of a list are arguments; the pending actions of an answer and its messages are left out.
use Prim.Native.String.{◌++◌ as str_append}
use data_olympus.Base.{
  ℕ, String, Bool, true, false, not, Option, none, some, List, [], ◌∷◌, ◌++◌, str_mem,
  if◌then◌else◌, ◌==◌,
}
use data_olympus.Audit.Log.{text, number, other, Event}
use data_olympus.Enforce.Ledger.{
  Key, Entries, Consultation, explicit_trigger, prompt_hook_trigger, record_consult, is_fresh,
  fresh_signals,
}
use data_olympus.Enforce.Policy.{
  Texts, Classifier, signal_family_coverage, uncovered_signals, classify, coverage,
}

-- the settings of the server, and what it calls
pub record Setup : Type 0 where
  pub texts : Texts
  pub classifier : Classifier
  pub head : ℕ → String → String
  pub search : String → List String
  pub dumps_list : List String → String
  pub retention_sec : ℕ
  pub max_entries : ℕ
  pub ttl_sec : ℕ

pub record Gatekeeper : Type 0 where
  pub ledger : Entries
  pub audit : Option (List Event)

pub record ConsultRequest : Type 0 where
  pub workspace : String
  pub intent : String
  pub source_session : String
  pub agent_identity : String
  pub now : ℕ
  pub trigger : String

pub record ConsultResponse : Type 0 where
  pub is_governed_decision : Bool
  pub rules : List String
  pub consulted_at : ℕ

pub record GateRequest : Type 0 where
  pub workspace : String
  pub session_id : String
  pub action_path : Option String
  pub action_diff : String
  pub now : ℕ
  pub clearance : String

-- the action is not governed, it is cleared, or these of its signals are not covered
pub data GateVerdict : Type 0 where
  not_governed cleared : GateVerdict
  consult_required : List String → GateVerdict

abbrev pub gate_clearance_pair : String
gate_clearance_pair = "pair"

abbrev pub max_consult_intent_chars : ℕ
max_consult_intent_chars = 4000

abbrev pub known_trigger : String → String
known_trigger trigger =
    if str_mem trigger (explicit_trigger ∷ prompt_hook_trigger ∷ [])
    then trigger
    else explicit_trigger

abbrev pub join : List String → String
join [] = ""
join (s ∷ ss) = elim ss [ [] ↦ s | t ∷ ts ↦ str_append s (str_append "," (join ss)) ]

abbrev pub is_empty : List String → Bool
is_empty [] = true
is_empty (s ∷ ss) = false

abbrev pub log_events : Event → Option (List Event) → Option (List Event)
log_events ev none = none
log_events ev (some evs) = some (evs ++ ev ∷ [])

abbrev pub log_event : Event → Gatekeeper → Gatekeeper
log_event ev g = record g { audit = log_events ev g.audit }

-- an empty path is no path
abbrev pub path_or : String → Option String → String
path_or workspace none = workspace
path_or workspace (some p) = if p == "" then workspace else p

module _ (s : Setup) where
  unfoldable pub consult_signals : ConsultRequest → List String
  consult_signals r =
      classify s.texts s.classifier (s.head max_consult_intent_chars r.intent) none ""

  unfoldable pub consult_coverage : ConsultRequest → List String
  consult_coverage r = coverage s.texts s.classifier (s.head max_consult_intent_chars r.intent)

  -- the search runs where the intent is governed
  unfoldable pub rules_of : ConsultRequest → List String
  rules_of r =
      if is_empty (consult_signals r)
      then []
      else s.search (s.head max_consult_intent_chars r.intent)

  unfoldable pub consultation_of : ConsultRequest → Consultation
  consultation_of r = record {
    key = record { session_id = r.source_session; workspace = r.workspace };
    rule_ids = rules_of r;
    now = r.now;
    trigger = known_trigger r.trigger;
    signals = consult_coverage r;
  }

  unfoldable pub consult_event : ConsultRequest → Event
  consult_event r =
      ("ts", number r.now)
      ∷ ("event_type", text "consult")
      ∷ ("status", text "recorded")
      ∷ ("agent_identity", text r.agent_identity)
      ∷ ("source_session", text r.source_session)
      ∷ ("target_path", text r.workspace)
      ∷ ("trigger", text (known_trigger r.trigger))
      ∷ ("reason", text (join (consult_signals r)))
      ∷ (
        "coverage",
        other (not (is_empty (consult_coverage r))) (s.dumps_list (consult_coverage r)),
      )
      ∷ []

  unfoldable pub kb_consult : ConsultRequest → Gatekeeper → Gatekeeper × ConsultResponse
  kb_consult r g =
      let ledger = record_consult s.retention_sec s.max_entries (consultation_of r) g.ledger in
      (
        log_event (consult_event r) (record g { ledger = ledger }),
        record {
          is_governed_decision = not (is_empty (consult_signals r));
          rules = rules_of r;
          consulted_at = r.now;
        },
      )

  abbrev pub key_of : GateRequest → Key
  key_of q = record { session_id = q.session_id; workspace = q.workspace }

  unfoldable pub action_signals : GateRequest → List String
  action_signals q = classify s.texts s.classifier "" q.action_path q.action_diff

  unfoldable pub gate_uncovered : GateRequest → Entries → List String
  gate_uncovered q es =
      if q.clearance == gate_clearance_pair
      then if is_fresh (key_of q) q.now s.ttl_sec true es then [] else action_signals q
      else uncovered_signals (signal_family_coverage s.texts.strip) (action_signals q)
          (fresh_signals (key_of q) q.now s.ttl_sec es)

  unfoldable pub gate_event : GateRequest → String → String → Event
  gate_event q event_type status =
      ("ts", number q.now)
      ∷ ("event_type", text event_type)
      ∷ ("status", text status)
      ∷ ("source_session", text q.session_id)
      ∷ ("target_path", text (path_or q.workspace q.action_path))
      ∷ ("reason", text (join (action_signals q)))
      ∷ []

  abbrev pub judge : GateRequest → List String → Gatekeeper → Gatekeeper × GateVerdict
  judge q [] g = (log_event (gate_event q "gate_allow" "allow") g, cleared)
  judge q (u ∷ us) g = (
    log_event
        (gate_event q "gate_block" "consult_required"
          ++ ("uncovered", other true (s.dumps_list (u ∷ us))) ∷ [])
        g,
    consult_required (u ∷ us),
  )

  abbrev pub judge_governed : GateRequest → List String → Gatekeeper → Gatekeeper × GateVerdict
  judge_governed q [] g = (g, not_governed)
  judge_governed q (sig ∷ sigs) g = judge q (gate_uncovered q g.ledger) g

  unfoldable pub kb_gate_check : GateRequest → Gatekeeper → Gatekeeper × GateVerdict
  kb_gate_check q g = judge_governed q (action_signals q) g

  -- the calls of the two tools, the latest one first
  pub data Call : Type 0 where
    consults : ConsultRequest → Call
    checks : GateRequest → Call

  unfoldable pub call : Call → Gatekeeper → Gatekeeper
  call (consults r) g = (kb_consult r g).0
  call (checks q) g = (kb_gate_check q g).0

  unfoldable pub calls : List Call → Gatekeeper → Gatekeeper
  calls [] g = g
  calls (c ∷ cs) g = call c (calls cs g)

abbrev pub new_gatekeeper : Option (List Event) → Gatekeeper
new_gatekeeper audit = record { ledger = []; audit = audit }
