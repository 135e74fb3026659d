-- ===== src/Tests/Audit.antt =====
-- Runs of the audit log (audit_log.py), with digests that only mark a text and bodies that are
-- written as the hash before them.
use Prim.Native.String.{◌++◌ as str_append}
use package.text.Mathlib.TextLemmas.{
  append_cancel_right, append-ne-nil_of_right_ne-nil, cons-ne-nil,
}
use data_olympus.Base.{
  ℕ, String, true, Option, none, some, List, [], ◌∷◌, ◌++◌, map, length, lookup, put, remove, keys,
  ◌≡◌, ◌≢◌, refl, sym, ◌∙◌, arith, lookup-remove, ap,
}
use data_olympus.Pending.Reconcile.{sort_names}
use data_olympus.Audit.Log.{
  Json, text, number, Event, Line, blank, garbled, object, hash_of, all_lines, segments, last_of,
  lines_of, load_last_hash, open_log, digest, canonical, own_hash, chained, check, verify,
  rotate_file, maybe_rotate, append_line, append, LogFiles, free_name, rotated_path_for,
}
use data_olympus.Audit.Append.{
  Use, appends, restarts, step, steps, AllFitting, written, verify-steps,
}
use data_olympus.Audit.Tamper.{hashed, reverse_onto, verify_unique}
use data_olympus.Audit.Query.{
  Filters, backwards, scanned_lines, time_of, timing, matches, visit, scan, iter_filtered,
}
use data_olympus.Audit.Recent.{wanted, iter_filtered-wanted}

abbrev text_of : Option Json → String
text_of (some (text s)) = s
text_of _ = ""

abbrev dumps : Event → String
dumps ev = text_of (lookup "prev_hash" ev)

abbrev sha256 : String → String
sha256 s = str_append s "h"

abbrev hmac : String → String → String
hmac key s = s

abbrev size : List Line → ℕ
size = length

marked : (s : String) → digest dumps sha256 hmac "" s ≢ ""
unfolding digest
marked s = append-ne-nil_of_right_ne-nil s (cons-ne-nil _ "")

no_collision :
    (a b : String) → digest dumps sha256 hmac "" a ≡ digest dumps sha256 hmac "" b → a ≡ b
unfolding digest
no_collision a b h = append_cancel_right a b "h" h

canonical-named :
    (a : Event) (p : String)
    → lookup "prev_hash" a ≡ some (text p)
    → canonical dumps sha256 hmac "" a ≡ p
unfolding canonical
canonical-named a p h = ap text_of (lookup-remove "hash" "prev_hash" a ∙ h)

names_prev :
    (a b : Event) (p q : String)
    → canonical dumps sha256 hmac "" a ≡ canonical dumps sha256 hmac "" b
    → lookup "prev_hash" a ≡ some (text p)
    → lookup "prev_hash" b ≡ some (text q)
    → p ≡ q
names_prev a b p q h ha hb = sym (canonical-named a p ha) ∙ h ∙ canonical-named b q hb

abbrev put_event : ℕ → Event
put_event t = ("ts", number t) ∷ ("agent_identity", text "ada") ∷ []

abbrev files : LogFiles
files = record { stem = "audit"; suffix = ".jsonl"; decimal = λ n. "1"; size = size; max_bytes = 2 }

-- two writes, a restart, and a write that rotates the file of two lines
abbrev uses : List (Use dumps sha256 hmac "" marked files)
uses =
    appends (put_event 5) "e1" "T1"
    ∷ appends (put_event 6) "e2" "T1"
    ∷ restarts
    ∷ appends (put_event 7) "e3" "T1"
    ∷ []

verify-steps_example :
    let log = steps dumps sha256 hmac "" marked files uses (open_log [] none) in
    (verify dumps sha256 hmac "" log ≡ none)
    × (all_lines log.rotated log.live
        ≡ all_lines [] none ++ written dumps sha256 hmac "" marked files uses (open_log [] none))
unfolding verify check all_lines segments sort_names open_log load_last_hash last_of AllFitting step
    append maybe_rotate rotate_file rotated_path_for free_name append_line chained put
verify-steps_example =
    verify-steps dumps sha256 hmac "" marked files uses [] none refl (tt, (tt, (tt, (tt, tt))))

-- the rotation is seen: the file of two lines, and the live one of one line
rotation :
    let log = steps dumps sha256 hmac "" marked files uses (open_log [] none) in
    (keys log.rotated ≡ "audit-T1.jsonl" ∷ []) × (length (lines_of log.live) ≡ 1)
unfolding open_log load_last_hash last_of all_lines segments sort_names step steps append
    maybe_rotate rotate_file rotated_path_for free_name append_line chained put
rotation = (refl, refl)

abbrev event : Event
event = chained dumps sha256 hmac "" (put_event 5) "e1" (text "")

-- an event before the chain, and the same chain
verify_unique_example :
    map (canonical dumps sha256 hmac "") (hashed (all_lines [] (some (object event ∷ []))))
    ≡ map
        (canonical dumps sha256 hmac "")
        (hashed (all_lines [] (some (object (put_event 1) ∷ blank ∷ object event ∷ []))))
unfolding verify check open_log load_last_hash last_of all_lines segments sort_names chained put
    hash_of lookup own_hash digest canonical remove
verify_unique_example =
    verify_unique dumps sha256 hmac "" marked no_collision names_prev [] []
      (some (object event ∷ [])) (some (object (put_event 1) ∷ blank ∷ object event ∷ [])) refl refl
      refl

abbrev by_ada : Filters
by_ada = record { since = some 2; agent = some "ada"; status = none }

abbrev live : List Line
live = object (put_event 1) ∷ object (put_event 2) ∷ garbled ∷ object (put_event 3) ∷ []

iter_filtered-wanted_example :
    iter_filtered none by_ada true [] (some live)
    ≡ wanted by_ada (scanned_lines true [] (some live))
unfolding scanned_lines backwards reverse_onto sort_names time_of lookup
iter_filtered-wanted_example =
    iter_filtered-wanted by_ada true [] (some live)
      ((omega arith, (omega arith, tt)), ((omega arith, tt), (tt, tt)))

-- the scan ends at the first event before the floor
two_wanted :
    iter_filtered none by_ada true [] (some live) ≡ object (put_event 3) ∷ object (put_event 2) ∷ []
unfolding iter_filtered scan visit timing time_of matches scanned_lines backwards reverse_onto
    sort_names lookup
two_wanted = refl
