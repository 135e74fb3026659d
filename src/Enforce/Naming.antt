-- ===== src/Enforce/Naming.antt =====
-- enforce_policy.py: the coverage of an intent that names the path and the commands of an action.
use data_olympus.Base.{
  String, true, false, Option, none, some, List, [], ◌∷◌, ◌++◌, str_mem, ◌==◌, ◌≡◌, refl, sym, ap,
  ◌⊎◌, inl, inr, arith, eq_refl, Bool-cases, str_eq-cases,
}
use data_olympus.Enforce.Policy.{
  Texts, Classifier, tokens, keyword_signals, command_signals, command_signal, path_signal, add_new,
  add_paths, optional, classify, coverage,
}
use data_olympus.Enforce.Signals.{mem_later}
use data_olympus.Enforce.Gate.{
  Setup, ConsultRequest, GateRequest, action_signals, consult_coverage, max_consult_intent_chars,
}

mem-left : (s : String) (xs ys : List String) → str_mem s xs ≡ true → str_mem s (xs ++ ys) ≡ true
mem-left s [] ys h = cc
mem-left s (x ∷ xs) ys h = ground (arith, mem-left s xs ys)

mem-right : (s : String) (xs ys : List String) → str_mem s ys ≡ true → str_mem s (xs ++ ys) ≡ true
mem-right s [] ys h = h
mem-right s (x ∷ xs) ys h = ground (arith, mem-right s xs ys h)

mem-cases :
    (s : String) (xs ys : List String)
    → str_mem s (xs ++ ys) ≡ true
    → (str_mem s xs ≡ true) ⊎ (str_mem s ys ≡ true)
mem-cases s [] ys h = inr h
mem-cases s (x ∷ xs) ys h = elim (Bool-cases (s == x)) [
  | inl is ↦ inl (rw is refl)
  | inr differs ↦ elim (mem-cases s xs ys (rw differs at h)) [
    | inl left ↦ inl (rw differs left)
    | inr right ↦ inr right
  ]
]

mem_cons :
    (s t : String) (xs ys : List String)
    → str_mem s (t ∷ xs) ≡ true
    → (str_mem s xs ≡ true → str_mem s ys ≡ true)
    → str_mem s (t ∷ ys) ≡ true
mem_cons s t xs ys h more = elim (Bool-cases (s == t)) [
  | inl is ↦ rw is refl
  | inr differs ↦ rw differs (more (rw differs at h))
]

module _ (x : Texts) (c : Classifier) where
  add_new-keeps :
      (found : Option String) (s : String) (signals : List String)
      → str_mem s signals ≡ true
      → str_mem s (add_new x c found signals) ≡ true
  add_new-keeps none s signals h = h
  add_new-keeps (some t) s signals h = elim (Bool-cases (str_mem t signals)) [
    | inl there ↦ rw there h
    | inr new ↦ rw new (mem-left s signals (t ∷ []) h)
  ]

  add_new-adds :
      (s : String) (signals : List String) → str_mem s (add_new x c (some s) signals) ≡ true
  add_new-adds s signals = elim (Bool-cases (str_mem s signals)) [
    | inl there ↦ rw there there
    | inr new ↦ rw new (mem-right s signals (s ∷ []) (rw (eq_refl s) refl))
  ]

  add_paths-keeps :
      (ts : List String) (s : String) (signals : List String)
      → str_mem s signals ≡ true
      → str_mem s (add_paths x c ts signals) ≡ true
  unfolding add_paths
  add_paths-keeps [] s signals h = h
  add_paths-keeps (t ∷ ts) s signals h =
      add_paths-keeps ts s _ (add_new-keeps (path_signal x c t) s signals h)

  add_paths-adds :
      (ts : List String) (p s : String) (signals : List String)
      → str_mem p ts ≡ true
      → path_signal x c p ≡ some s
      → str_mem s (add_paths x c ts signals) ≡ true
  unfolding add_paths
  add_paths-adds [] p s signals mem found = cc
  add_paths-adds (t ∷ ts) p s signals mem found = elim (str_eq-cases p t) [
    | inl is ↦ add_paths-keeps ts s _ (rw (sym is, found) (add_new-adds s signals))
    | inr (_, differs) ↦ add_paths-adds ts p s _ (rw differs at mem) found
  ]

  no_keywords :
      (text : String)
      → ((kw : String) → x.has_word kw text ≡ false)
      → (kws : List String) → keyword_signals x c text kws ≡ []
  unfolding keyword_signals
  no_keywords text absent [] = refl
  no_keywords text absent (kw ∷ kws) = rw (absent kw) (no_keywords text absent kws)

  command_signals-more :
      (small large : String)
      → (pats : List String)
      → ((pat : String)
          → str_mem pat pats ≡ true
          → x.contains pat small ≡ true
          → x.contains pat large ≡ true)
      → (s : String) → str_mem s (command_signals x c small pats) ≡ true
      → str_mem s (command_signals x c large pats) ≡ true
  unfolding command_signals
  command_signals-more small large [] more s h = h
  command_signals-more small large (pat ∷ pats) more s h =
      let tail : (other : String)
          → str_mem other pats ≡ true
          → x.contains other small ≡ true
          → x.contains other large ≡ true =
        λ other mem. more other (mem_later other pat pats mem) in
      elim (Bool-cases (x.contains pat small)) [
        | inl has ↦ rw (more pat (rw (eq_refl pat) refl) has) (
            mem_cons s (command_signal x.strip pat) _ _ (rw has at h)
              (command_signals-more small large pats tail s))
        | inr hasnt ↦
            let rest = command_signals-more small large pats tail s (rw hasnt at h) in
            elim (Bool-cases (x.contains pat large)) [
              | inl new ↦ rw new (mem_later s (command_signal x.strip pat) _ rest)
              | inr old ↦ rw old rest
            ]
      ]

  optional-mem :
      (found : Option String) (s : String) → str_mem s (optional x c found) ≡ true → found ≡ some s
  optional-mem none s h = cc
  optional-mem (some t) s h = elim (str_eq-cases s t) [
    | inl is ↦ ap (λ u. some u) (sym is)
    | inr (_, differs) ↦ cc (rw differs at h)
  ]

-- An action on a path is covered by every intent that names the path and the commands of the action:
-- where the path is a token of the intent (as far as it is read), and each governed fragment (a command
-- pattern of the classifier) that the text of the action contains is in the intent, each signal of the action is in the coverage of the intent.
-- No keyword is found in the empty text.
pub action_signals-consult_coverage :
    (s : Setup) (r : ConsultRequest) (q : GateRequest) (p : String)
    → q.action_path ≡ some p
    → (p == "") ≡ false
    → str_mem p (tokens s.texts (s.head max_consult_intent_chars r.intent)) ≡ true
    → ((pat : String)
        → str_mem pat s.classifier.command_patterns ≡ true
        → s.texts.contains pat (s.texts.lower q.action_diff) ≡ true
        → s.texts.contains pat (s.texts.lower (s.head max_consult_intent_chars r.intent)) ≡ true)
    → ((kw : String) → s.texts.has_word kw (s.texts.lower "") ≡ false)
    → (sig : String) → str_mem sig (action_signals s q) ≡ true
    → str_mem sig (consult_coverage s r) ≡ true
unfolding action_signals consult_coverage classify coverage
action_signals-consult_coverage s r q p path nonempty named commands absent sig mem =
    elim (mem-cases sig
      (keyword_signals s.texts s.classifier (s.texts.lower "") s.classifier.keywords
        ++ command_signals s.texts s.classifier (s.texts.lower q.action_diff)
            s.classifier.command_patterns)
      _ (rw (path, nonempty) at mem)) [
        | inl command ↦ add_paths-keeps s.texts s.classifier _ sig _ (
            mem-right sig _ _ (
              command_signals-more s.texts s.classifier _ _ s.classifier.command_patterns commands
                sig
                (rw
                  (no_keywords s.texts s.classifier (s.texts.lower "") absent s.classifier.keywords)
                  at command)))
        | inr on_path ↦
            add_paths-adds s.texts s.classifier _ p sig _ named
              (optional-mem s.texts s.classifier _ sig on_path)
      ]
