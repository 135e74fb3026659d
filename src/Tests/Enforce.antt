-- ===== src/Tests/Enforce.antt =====
-- Runs of the consultation gate (enforce_policy.py, tools_enforce.py), with a search that finds the
-- texts that are equal and an intent that is one token.
use data_olympus.Base.{
  String, Bool, true, false, not, ◌&&◌, ◌||◌, if◌then◌else◌, none, some, List, [], ◌∷◌, length,
  lookup, put, str_mem, ◌==◌, ◌≡◌, ◌≢◌, ◌≤◌, refl, arith, inl, inr, str_eq-cases,
}
use data_olympus.Enforce.Ledger.{
  Consultation, get, put_entry, put_all, kept_since, evict_old, enforce_cap, entry_of, evict,
  record_consult, recent_signals, fresh_signals,
}
use data_olympus.Enforce.Policy.{
  Texts, tokens, signal_family, clears, uncovered, uncovered_signals, signal_family_coverage,
  keyword_signals, command_signals, path_match, path_signal, classify, add_paths, coverage,
}
use data_olympus.Enforce.Support.{SomeOf}
use data_olympus.Enforce.Gate.{
  Setup, ConsultRequest, GateRequest, cleared, consult_required, consult_signals, consult_coverage,
  rules_of, consultation_of, kb_consult, action_signals, gate_uncovered, kb_gate_check, Call,
  consults, checks, call, calls, new_gatekeeper,
}
use data_olympus.Enforce.Signals.{HasClearing}
use data_olympus.Enforce.Clearance.{
  HasCovered, HasConsulted, kb_gate_check-HasCovered, kb_gate_check-HasConsulted,
}
use data_olympus.Enforce.Naming.{action_signals-consult_coverage}
use data_olympus.Enforce.Capacity.{length-calls}
use data_olympus.Enforce.Renewal.{kb_consult-cleared}
use data_olympus.Enforce.Store.{missing, open_ledger}
use data_olympus.Enforce.Restart.{records, open_ledger-records}

abbrev texts : Texts
texts = record {
  lower = λ s. s;
  strip = λ s. s;
  has_word = λ kw s. kw == s;
  contains = λ pat s. pat == s;
  fnmatch = λ p glob. p == glob;
  slashed = λ s. s;
  base_name = λ s. s;
  split = λ s. s ∷ [];
  rstrip = λ s. s;
  quoted = λ s. [];
}

abbrev setup : Setup
setup = record {
  texts = texts;
  classifier = record {
    keywords = "dependency" ∷ [];
    path_globs = "go.mod" ∷ "*/go.mod" ∷ [];
    command_patterns = "go get" ∷ [];
  };
  head = λ n s. s;
  search = λ s. "r1" ∷ [];
  dumps_list = λ ss. "";
  retention_sec = 60;
  max_entries = 2;
  ttl_sec = 60;
}

abbrev asks : ConsultRequest
asks = record {
  workspace = "w";
  intent = "dependency";
  source_session = "s";
  agent_identity = "ada";
  now = 100;
  trigger = "explicit";
}

abbrev hooks : ConsultRequest
hooks = record asks { now = 110; trigger = "prompt_hook" }

abbrev edits : GateRequest
edits = record {
  workspace = "w";
  session_id = "s";
  action_path = some "go.mod";
  action_diff = "";
  now = 150;
  clearance = "intent";
}

abbrev done : List (Call setup)
done = consults hooks ∷ checks edits ∷ consults asks ∷ []

passes : (kb_gate_check setup edits (calls setup done (new_gatekeeper (some [])))).1 ≡ cleared
unfolding kb_gate_check calls call kb_consult record_consult evict enforce_cap evict_old put_entry
    get entry_of put_all put kept_since consultation_of consult_coverage rules_of consult_signals
    coverage tokens add_paths path_signal path_match classify keyword_signals command_signals
    action_signals gate_uncovered uncovered_signals uncovered clears signal_family fresh_signals
    recent_signals lookup
passes = refl

-- without the consultation, it does not
refused :
    (kb_gate_check setup edits (calls setup (consults hooks ∷ []) (new_gatekeeper none))).1
    ≡ consult_required ("path:go.mod" ∷ [])
unfolding kb_gate_check calls call kb_consult record_consult evict enforce_cap evict_old put_entry
    get entry_of put_all put kept_since consultation_of consult_coverage rules_of consult_signals
    coverage tokens add_paths path_signal path_match classify keyword_signals command_signals
    action_signals gate_uncovered uncovered_signals uncovered clears signal_family fresh_signals
    recent_signals lookup
refused = refl

kb_gate_check-HasCovered_example : SomeOf (HasCovered setup edits "path:go.mod") done
unfolding action_signals classify keyword_signals command_signals path_signal path_match
kb_gate_check-HasCovered_example =
    kb_gate_check-HasCovered setup done (some []) edits refl passes "path:go.mod" refl

kb_gate_check-HasConsulted_example : SomeOf (HasConsulted setup edits) done
kb_gate_check-HasConsulted_example = kb_gate_check-HasConsulted setup done (some []) edits passes

length-calls_example : length (calls setup done (new_gatekeeper none)).ledger ≤ 2
length-calls_example = length-calls setup done none

governed : action_signals setup edits ≢ []
unfolding action_signals classify keyword_signals command_signals path_signal path_match
governed h = cc

covers :
    (sig : String)
    → str_mem sig (action_signals setup edits) ≡ true
    → HasClearing (signal_family_coverage (λ s. s)) (consult_coverage setup asks) sig
unfolding action_signals classify keyword_signals command_signals path_signal path_match
    consult_coverage coverage tokens add_paths clears signal_family lookup
covers sig h = elim (str_eq-cases sig "path:go.mod") [
  | inl is ↦ ("keyword:dependency", refl, rw is refl)
  | inr (_, differs) ↦ cc (rw differs at h)
]

-- another session consults before the action
abbrev between : List (Call setup)
between = consults (record hooks { source_session = "t" }) ∷ []

kb_consult-cleared_example :
    (kb_gate_check setup edits
      (calls setup between (kb_consult setup asks (new_gatekeeper none)).0)).1
    ≡ cleared
kb_consult-cleared_example =
    kb_consult-cleared setup asks (new_gatekeeper none) edits between refl refl refl (omega arith)
      (omega arith) ((omega arith, omega arith), tt) (omega arith) governed covers

abbrev consulted : Consultation
consulted = record {
  key = record { session_id = "s"; workspace = "w" };
  rule_ids = [];
  now = 5;
  trigger = "explicit";
  signals = "keyword:auth" ∷ [];
}

open_ledger-records_example :
    open_ledger 2 (records 60 2 (consulted ∷ []) missing).1
    ≡ (records 60 2 (consulted ∷ []) missing).0
open_ledger-records_example = open_ledger-records 60 2 (consulted ∷ []) missing

-- the intent is the path and the command, apart by a space
abbrev names_path : ConsultRequest
names_path = record asks { intent = "go.mod go get" }

abbrev runs : GateRequest
runs = record edits { action_diff = "go get example" }

-- a search that finds no word in the empty text, and the fragment in the two texts
abbrev word_setup : Setup
word_setup = record setup {
  texts = record texts {
    has_word = λ kw s. (kw == s) && not (s == "");
    contains = λ pat s. (pat == "go get") && (s == "go get example" || s == "go.mod go get");
    split = λ s. if s == "go.mod go get" then "go.mod" ∷ "go" ∷ "get" ∷ [] else s ∷ [];
  };
}

action_signals-consult_coverage_example :
    str_mem "command:go get" (consult_coverage word_setup names_path) ≡ true
unfolding action_signals classify keyword_signals command_signals path_signal path_match tokens
action_signals-consult_coverage_example =
    action_signals-consult_coverage word_setup names_path runs "go.mod" refl refl refl
      (λ pat governed has. in_intent (pat == "go get") has) (λ kw. no_word (kw == ""))
      "command:go get" refl
  where
    no_word : (b : Bool) → (b && false) ≡ false
    no_word true = refl
    no_word false = refl

    in_intent : (b : Bool) → (b && true) ≡ true → (b && true) ≡ true
    in_intent b h = h
