-- ===== src/Audit/Query.antt =====
-- audit_log.py: `iter_filtered`, over the lines as they are read, the newest first.
use data_olympus.Base.{
  ℕ, ◌+◌, String, Bool, true, false, ◌&&◌, Option, none, some, List, [], ◌∷◌, Dict, lookup, keys,
  leb, ltb, if◌then◌else◌,
}
use data_olympus.Pending.Reconcile.{sort_names}
use data_olympus.Audit.Log.{
  Json, text, number, other, Event, Line, blank, garbled, scalar, object, lines_of, is_text,
}
use data_olympus.Audit.Tamper.{reverse_onto}

pub record Filters : Type 0 where
  pub since : Option ℕ
  pub agent : Option String
  pub status : Option String

-- the segments of these names, each backwards
unfoldable pub backwards : List String → Dict (List Line) → List Line
backwards [] rotated = []
backwards (name ∷ names) rotated =
    reverse_onto (lines_of (lookup name rotated)) (backwards names rotated)

-- the live file, and then the rotated ones from the latest
unfoldable pub scanned_lines : Bool → Dict (List Line) → Option (List Line) → List Line
scanned_lines include_rotated rotated live = reverse_onto (lines_of live) (
    if include_rotated then backwards (reverse_onto (sort_names (keys rotated)) []) rotated else [])

-- a number is a time, and an event with no `ts` has the time 0
unfoldable pub time_of : Event → Option ℕ
time_of ev = elim (lookup "ts" ev) [
  | none ↦ some 0
  | some (text s) ↦ none
  | some (number n) ↦ some n
  | some (other b s) ↦ none
]

pub data Timing : Type 0 where
  in_window no_time too_old : Timing

-- the two tests of the time against `since`
abbrev pub against : ℕ → Option ℕ → Timing
against floor none = no_time
against floor (some t) = if ltb t floor then too_old else in_window

unfoldable pub timing : Option ℕ → Event → Timing
timing none ev = in_window
timing (some floor) ev = against floor (time_of ev)

abbrev pub fits : Option String → Option Json → Bool
fits none v = true
fits (some s) v = is_text s v

unfoldable pub matches : Filters → Event → Bool
matches f ev = fits f.agent (lookup "agent_identity" ev) && fits f.status (lookup "status" ev)

abbrev is_absent {ℓ} : {A : Type ℓ} → Option A → Bool
is_absent none = true
is_absent (some a) = false

unfoldable pub no_filters : Filters → Bool
unfolding is_absent
no_filters f = is_absent f.since && (is_absent f.agent && is_absent f.status)

abbrev pub spent : Option ℕ → ℕ → Bool
spent none scanned = false
spent (some most) scanned = leb most scanned

module _ (max_scan_events : Option ℕ) (f : Filters) where
  -- what one line does to the rest of the scan
  unfoldable pub visit : Line → List Line → List Line → List Line
  visit blank same rest = same
  visit garbled same rest = rest
  visit scalar same rest = if no_filters f then scalar ∷ rest else rest
  visit (object ev) same rest = elim (timing f.since ev) [
    | no_time ↦ rest
    | too_old ↦ []
    | in_window ↦ if matches f ev then object ev ∷ rest else rest
  ]

  unfoldable pub scan : ℕ → List Line → List Line
  scan scanned [] = []
  scan scanned (l ∷ ls) =
      let same = scan scanned ls in
      let rest = scan (scanned + 1) ls in
      if spent max_scan_events scanned then [] else visit l same rest

unfoldable pub iter_filtered :
    Option ℕ → Filters → Bool → Dict (List Line) → Option (List Line) → List Line
iter_filtered max_scan_events f include_rotated rotated live =
    scan max_scan_events f 0 (scanned_lines include_rotated rotated live)
