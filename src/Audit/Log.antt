-- ===== src/Audit/Log.antt =====
-- audit_log.py: `AuditLog` with `append`, `verify`, the rotation and the reading of the last hash.
-- A file is its list of lines. `dumps` is `json.dumps` with sorted keys, `sha256` and `hmac` are the
-- hex digests, `size` is `os.path.getsize`, `decimal`
-- prints a number and a stamp is the text of a time up to its microsecond: arguments. A line that is written reads back as its
-- event.
use Prim.Native.String.{◌++◌ as str_append}
use data_olympus.Base.{
  ℕ, zero, suc, str_mem, ◌+◌, String, Bool, true, false, not, Option, none, some, List, [], ◌∷◌,
  ◌++◌, Dict, lookup, put, remove, keys, ltb, eqb, if◌then◌else◌, ◌==◌,
}
use data_olympus.Pending.Reconcile.{sort_names}

-- A JSON value: a text, a number, or another one, with its truth value and its text.
pub data Json : Type 0 where
  text : String → Json
  number : ℕ → Json
  other : Bool → String → Json

abbrev pub Event : Type 0
Event = Dict Json

-- blank, no JSON, JSON that is no object, an object
pub data Line : Type 0 where
  blank garbled scalar : Line
  object : Event → Line

pub record AuditLog : Type 0 where
  pub rotated : Dict (List Line)
  pub live : Option (List Line)
  pub last_hash : Json

abbrev pub is_truthy : Json → Bool
is_truthy (text s) = not (s == "")
is_truthy (number n) = not (eqb n 0)
is_truthy (other b s) = b

abbrev pub truthy : Option Json → Option Json
truthy none = none
truthy (some v) = if is_truthy v then some v else none

-- `ev.get("hash")`, where it is truthy
unfoldable pub hash_of : Event → Option Json
hash_of ev = truthy (lookup "hash" ev)

abbrev pub is_text : String → Option Json → Bool
is_text s (some (text t)) = t == s
is_text s (some (number n)) = false
is_text s (some (other b t)) = false
is_text s none = false

abbrev pub lines_of : Option (List Line) → List Line
lines_of none = []
lines_of (some ls) = ls

-- the lines of the segments in this order
unfoldable pub segments : List String → Dict (List Line) → List Line
segments [] rotated = []
segments (name ∷ names) rotated = lines_of (lookup name rotated) ++ segments names rotated

-- every segment, the rotated ones by their sorted names and then the live file
unfoldable pub all_lines : Dict (List Line) → Option (List Line) → List Line
all_lines rotated live = segments (sort_names (keys rotated)) rotated ++ lines_of live

abbrev pub later_hash : Json → Option Json → Json
later_hash last none = last
later_hash last (some h) = h

unfoldable pub last_of : Json → List Line → Json
last_of last [] = last
last_of last (object ev ∷ ls) = last_of (later_hash last (hash_of ev)) ls
last_of last (_ ∷ ls) = last_of last ls

abbrev pub genesis : Json
genesis = text ""

unfoldable pub load_last_hash : Dict (List Line) → Option (List Line) → Json
load_last_hash rotated live = last_of genesis (all_lines rotated live)

-- `AuditLog(...)` on the files that are there
unfoldable pub open_log : Dict (List Line) → Option (List Line) → AuditLog
open_log rotated live = record {
  rotated = rotated;
  live = live;
  last_hash = load_last_hash rotated live;
}

unfoldable pub append_line : Event → AuditLog → AuditLog
append_line ev log = record log {
  live = some (lines_of log.live ++ object ev ∷ []);
  last_hash = later_hash log.last_hash (lookup "hash" ev);
}

-- where the files are, and the size from which the live one is rotated
pub record LogFiles : Type 0 where
  pub stem : String
  pub suffix : String
  pub decimal : ℕ → String
  pub size : List Line → ℕ
  pub max_bytes : ℕ

module _ (files : LogFiles) where
  -- the names that are tried, for the text `stamp` of a time
  abbrev pub rotated_name : String → ℕ → String
  rotated_name stamp zero = str_append files.stem (str_append "-" (str_append stamp files.suffix))
  rotated_name stamp (suc n) = str_append files.stem (
      str_append "-"
        (str_append stamp (str_append "-" (str_append (files.decimal (suc n)) files.suffix))))

  -- The first name from the `n`-th on that no file has: one more name than there are files is tried
  -- at most.
  unfoldable pub free_name : String → List String → List String → ℕ → String
  free_name stamp names [] n = rotated_name stamp n
  free_name stamp names (_ ∷ left) n =
      let rest = free_name stamp names left (suc n) in
      if str_mem (rotated_name stamp n) names then rest else rotated_name stamp n

  unfoldable pub rotated_path_for : String → List String → String
  rotated_path_for stamp names = free_name stamp names names 0

  unfoldable pub rotate_file : String → Option (List Line) → AuditLog → AuditLog
  rotate_file stamp none log = log
  rotate_file stamp (some ls) log =
      if ltb (files.size ls) files.max_bytes then log else record log {
        rotated = put (rotated_path_for stamp (keys log.rotated)) ls log.rotated;
        live = none;
      }

  unfoldable pub maybe_rotate : String → AuditLog → AuditLog
  maybe_rotate stamp log = if eqb files.max_bytes 0 then log else rotate_file stamp log.live log

-- The walk over the lines. `own_hash` is the hash recomputed of an event's body.
module _ (own_hash : Event → String) where
  -- the event names the hash before it and has its own
  abbrev pub is_link : Event → Json → String → Bool
  is_link ev h prev =
      if is_text prev (lookup "prev_hash" ev) then is_text (own_hash ev) (some h) else false

  -- `none` where the chain is intact, else the index of the first offending line
  unfoldable pub check : Bool → String → ℕ → List Line → Option ℕ
  check seen prev i [] = none
  check seen prev i (blank ∷ ls) = check seen prev (i + 1) ls
  check seen prev i (garbled ∷ ls) = some i
  check seen prev i (scalar ∷ ls) =
      let rest = check seen prev (i + 1) ls in if seen then some i else rest
  check seen prev i (object ev ∷ ls) =
      let unhashed = check seen prev (i + 1) ls in
      let linked = check true (own_hash ev) (i + 1) ls in
      elim (hash_of ev) [
        | none ↦ if seen then some i else unhashed
        | some h ↦ if is_link ev h prev then linked else some i
      ]

module _ (dumps : Event → String) (sha256 : String → String) (hmac : String → String → String)
    (hmac_key : String) where
  unfoldable pub digest : String → String
  digest payload = if hmac_key == "" then sha256 payload else hmac hmac_key payload

  unfoldable pub canonical : Event → String
  canonical ev = dumps (remove "hash" ev)

  unfoldable pub own_hash : Event → String
  own_hash ev = digest (canonical ev)

  unfoldable pub verify : AuditLog → Option ℕ
  verify log = check own_hash false "" 0 (all_lines log.rotated log.live)

  -- the event as it is written, with its fresh id
  unfoldable pub chained : Event → String → Json → Event
  chained event event_id last =
      let body = put "prev_hash" last (put "event_id" (text event_id) event) in
      put "hash" (text (own_hash body)) body

  unfoldable pub append : LogFiles → Event → String → String → AuditLog → AuditLog
  append files event event_id stamp log =
      let log' = maybe_rotate files stamp log in
      append_line (chained event event_id log'.last_hash) log'
