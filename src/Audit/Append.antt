-- ===== src/Audit/Append.antt =====
-- audit_log.py: any use of `append`, with rotations and restarts, and `verify` after it.
use mathlib.Core.List.{append_assoc, append-nil}
use data_olympus.Base.{
  String, false, Option, none, some, List, [], ◌∷◌, ◌++◌, Dict, lookup, put, remove, keys, ltb, eqb,
  ◌≡◌, ◌≢◌, refl, sym, ap, ◌∙◌, subst, arith, eq_iff, eq_refl, lookup-put, lookup-put_self,
  Bool-cases, inl, inr, ◌==◌,
}
use data_olympus.Audit.Log.{
  Json, text, Event, Line, object, AuditLog, hash_of, truthy, all_lines, later_hash, load_last_hash,
  open_log, digest, canonical, own_hash, chained, check, verify, rotate_file, maybe_rotate,
  append_line, append, LogFiles, rotated_name, rotated_path_for,
}
use data_olympus.Audit.Rotated.{rotated_path_for-Latest}
use data_olympus.Audit.Segments.{Latest, all_lines-rotate, all_lines-snoc}
use data_olympus.Audit.Chain.{tail, Linked, check-snoc, last_of-tail, tail-snoc}

remove-put_self {ℓ} :
    {V : Type ℓ} (k : String) (v : V) (m : Dict V) → remove k (put k v m) ≡ remove k m
unfolding put remove
remove-put_self k v [] = rw (eq_refl k) refl
remove-put_self k v ((j, w) ∷ m) = elim (Bool-cases (j == k)) [
  | inl same ↦ rw (same, eq_refl k) refl
  | inr differs ↦ rw differs (rw differs (ap (◌∷◌ (j, w)) (remove-put_self k v m)))
]

truthy_text : (s : String) → s ≢ "" → truthy (some (text s)) ≡ some (text s)
truthy_text s h = ground (arith, eq_iff s "")

truthy-some : (o : Option Json) (v : Json) → truthy o ≡ some v → o ≡ some v
truthy-some none v h = cc
truthy-some (some w) v h = ground arith

module _ (dumps : Event → String) (sha256 : String → String) (hmac : String → String → String)
    (hmac_key : String)
    (hex : (payload : String) → digest dumps sha256 hmac hmac_key payload ≢ "") where
  abbrev own : Event → String
  own = own_hash dumps sha256 hmac hmac_key

  chained-Linked :
      (event : Event) (event_id p : String)
      → Linked own p (chained dumps sha256 hmac hmac_key event event_id (text p))
  unfolding chained own_hash canonical hash_of
  chained-Linked event event_id p = record {
    named = lookup-put "hash" "prev_hash" _ body ∙ lookup-put_self "prev_hash" (text p) _;
    hashed =
        ap truthy (lookup-put_self "hash" _ body)
        ∙ (truthy_text (own body) (hex (canonical dumps sha256 hmac hmac_key body))
            ∙ ap (λ m. some (text (digest dumps sha256 hmac hmac_key (dumps m))))
                (sym (remove-put_self "hash" (text (own body)) body)));
  }
    where
      body : Event
      body = put "prev_hash" (text p) (put "event_id" (text event_id) event)

  -- the chain is intact, and the log remembers its last hash
  pub record Sound (log : AuditLog) : Type 0 where
    pub intact : verify dumps sha256 hmac hmac_key log ≡ none
    pub remembered : log.last_hash ≡ text (tail own "" (all_lines log.rotated log.live))

  open_log-Sound :
      (rotated : Dict (List Line)) (live : Option (List Line))
      → verify dumps sha256 hmac hmac_key (open_log rotated live) ≡ none
      → Sound (open_log rotated live)
  unfolding open_log load_last_hash verify
  open_log-Sound rotated live h = record {
    intact = h;
    remembered = last_of-tail own false "" 0 (all_lines rotated live) h;
  }

  append_line-Sound :
      (ev : Event) (log : AuditLog)
      → Sound log
      → Linked own (tail own "" (all_lines log.rotated log.live)) ev
      → Sound (append_line ev log)
  unfolding append_line verify hash_of
  append_line-Sound ev log s l = record {
    intact =
        ap (check own false "" 0) (all_lines-snoc log.rotated log.live (object ev))
        ∙ check-snoc own false "" 0 (all_lines log.rotated log.live) ev s.intact l;
    remembered =
        ap (later_hash log.last_hash) (truthy-some (lookup "hash" ev) _ l.hashed)
        ∙ ap text (
            sym (tail-snoc own "" (all_lines log.rotated log.live) ev l.hashed)
            ∙ ap (tail own "") (sym (all_lines-snoc log.rotated log.live (object ev))));
  }

  module _ (files : LogFiles) where
    rotate_file-Sound :
        (stamp : String) (live : Option (List Line)) (log : AuditLog)
        → live ≡ log.live
        → Latest (rotated_name files stamp 0) (keys log.rotated)
        → Sound log
        → Sound (rotate_file files stamp live log)
    unfolding rotate_file verify
    rotate_file-Sound stamp none log is latest s = s
    rotate_file-Sound stamp (some ls) log is latest s =
        elim (Bool-cases (ltb (files.size ls) files.max_bytes)) [
          | inl small ↦ rw small s
          | inr large ↦
              let same =
                all_lines-rotate (rotated_path_for files stamp (keys log.rotated)) ls log.rotated
                  (rotated_path_for-Latest files stamp (keys log.rotated) latest)
                ∙ ap (all_lines log.rotated) is in
              rw large (record {
                intact = ap (check own false "" 0) same ∙ s.intact;
                remembered = s.remembered ∙ ap (λ x. text (tail own "" x)) (sym same);
              })
        ]

    maybe_rotate-Sound :
        (stamp : String) (log : AuditLog)
        → Latest (rotated_name files stamp 0) (keys log.rotated)
        → Sound log
        → Sound (maybe_rotate files stamp log)
    unfolding maybe_rotate
    maybe_rotate-Sound stamp log latest s = elim (Bool-cases (eqb files.max_bytes 0)) [
      | inl off ↦ rw off s
      | inr on ↦ rw on (rotate_file-Sound stamp log.live log refl latest s)
    ]

    append-Sound :
        (event : Event) (event_id stamp : String) (log : AuditLog)
        → Latest (rotated_name files stamp 0) (keys log.rotated)
        → Sound log
        → Sound (append dumps sha256 hmac hmac_key files event event_id stamp log)
    unfolding append
    append-Sound event event_id stamp log latest s =
        let s' = maybe_rotate-Sound stamp log latest s in
        append_line-Sound _ _ s' (
          subst
            (λ h.
              Linked own
                (tail own "" (
                  all_lines (maybe_rotate files stamp log).rotated
                    (maybe_rotate files stamp log).live))
                (chained dumps sha256 hmac hmac_key event event_id h))
            (sym s'.remembered) (chained-Linked event event_id _))

    -- an append, with its fresh id and the text of its time, or a restart of the process
    pub data Use : Type 0 where
      appends : Event → String → String → Use
      restarts : Use

    unfoldable pub step : Use → AuditLog → AuditLog
    step (appends event event_id stamp) log =
        append dumps sha256 hmac hmac_key files event event_id stamp log
    step restarts log = open_log log.rotated log.live

    unfoldable pub steps : List Use → AuditLog → AuditLog
    steps [] log = log
    steps (u ∷ us) log = steps us (step u log)

    -- the time of each append names a rotated file that is not there and sorts after those that are
    abbrev pub Fitting : Use → AuditLog → Type 0
    Fitting (appends event event_id stamp) log =
        Latest (rotated_name files stamp 0) (keys log.rotated)
    Fitting restarts log = Unit

    unfoldable pub AllFitting : List Use → AuditLog → Type 0
    AllFitting [] log = Unit
    AllFitting (u ∷ us) log = Fitting u log × AllFitting us (step u log)

    step-Sound : (u : Use) (log : AuditLog) → Fitting u log → Sound log → Sound (step u log)
    unfolding step open_log verify
    step-Sound (appends event event_id stamp) log fits s =
        append-Sound event event_id stamp log fits s
    step-Sound restarts log fits s = open_log-Sound log.rotated log.live s.intact

    steps-Sound :
        (us : List Use) (log : AuditLog) → AllFitting us log → Sound log → Sound (steps us log)
    unfolding steps AllFitting
    steps-Sound [] log fits s = s
    steps-Sound (u ∷ us) log fits s = steps-Sound us (step u log) fits.1 (step-Sound u log fits.0 s)

    -- the line of each append, in order
    unfoldable pub written : List Use → AuditLog → List Line
    written [] log = []
    written (appends event event_id stamp ∷ us) log =
        object (
          chained dumps sha256 hmac hmac_key event event_id
            (maybe_rotate files stamp log).last_hash)
        ∷ written us (step (appends event event_id stamp) log)
    written (restarts ∷ us) log = written us (step restarts log)

    rotate-lines :
        (stamp : String) (live : Option (List Line)) (log : AuditLog)
        → live ≡ log.live
        → Latest (rotated_name files stamp 0) (keys log.rotated)
        → all_lines
            (rotate_file files stamp live log).rotated
            (rotate_file files stamp live log).live
          ≡ all_lines log.rotated log.live
    unfolding rotate_file
    rotate-lines stamp none log is latest = refl
    rotate-lines stamp (some ls) log is latest =
        elim (Bool-cases (ltb (files.size ls) files.max_bytes)) [
          | inl small ↦ rw small refl
          | inr large ↦ rw large (
              all_lines-rotate (rotated_path_for files stamp (keys log.rotated)) ls log.rotated
                (rotated_path_for-Latest files stamp (keys log.rotated) latest)
              ∙ ap (all_lines log.rotated) is)
        ]

    maybe_rotate-lines :
        (stamp : String) (log : AuditLog)
        → Latest (rotated_name files stamp 0) (keys log.rotated)
        → all_lines (maybe_rotate files stamp log).rotated (maybe_rotate files stamp log).live
          ≡ all_lines log.rotated log.live
    unfolding maybe_rotate
    maybe_rotate-lines stamp log latest = elim (Bool-cases (eqb files.max_bytes 0)) [
      | inl off ↦ rw off refl
      | inr on ↦ rw on (rotate-lines stamp log.live log refl latest)
    ]

    steps-lines :
        (us : List Use) (log : AuditLog)
        → AllFitting us log
        → all_lines (steps us log).rotated (steps us log).live
          ≡ all_lines log.rotated log.live ++ written us log
    unfolding steps AllFitting step append append_line open_log written
    steps-lines [] log fits = sym (append-nil _)
    steps-lines (restarts ∷ us) log fits = steps-lines us (step restarts log) fits.1
    steps-lines (appends event event_id stamp ∷ us) log fits =
        let log' = maybe_rotate files stamp log in
        let line : Line =
          object (chained dumps sha256 hmac hmac_key event event_id log'.last_hash) in
        steps-lines us (step (appends event event_id stamp) log) fits.1
        ∙ (ap (λ t. t ++ written us (step (appends event event_id stamp) log))
              (all_lines-snoc log'.rotated log'.live line
                ∙ ap (λ t. t ++ line ∷ []) (maybe_rotate-lines stamp log fits.0))
            ∙ append_assoc (all_lines log.rotated log.live) (line ∷ [])
                (written us (step (appends event event_id stamp) log)))

    -- The chain stays intact and only grows: a log that verifies when it is opened verifies after any
    -- appends, with any rotations on the way and any restarts, and its lines are the old lines and
    -- then one line for each append, in order. The time of each append names a rotated file that
    -- sorts after those that are there, which the second of two rotations within one microsecond does
    -- not, and digests are not empty.
    pub verify-steps :
        (us : List Use) (rotated : Dict (List Line)) (live : Option (List Line))
        → verify dumps sha256 hmac hmac_key (open_log rotated live) ≡ none
        → AllFitting us (open_log rotated live)
        → let log = steps us (open_log rotated live) in
          (verify dumps sha256 hmac hmac_key log ≡ none)
          × (all_lines log.rotated log.live
              ≡ all_lines rotated live ++ written us (open_log rotated live))
    unfolding open_log
    verify-steps us rotated live h fits = (
      (steps-Sound us (open_log rotated live) fits (open_log-Sound rotated live h)).intact,
      steps-lines us (open_log rotated live) fits,
    )
