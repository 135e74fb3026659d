-- ===== src/Audit/Limit.antt =====
-- audit_log.py: how many events `iter_filtered` answers.
use data_olympus.Base.{
  ℕ, ◌+◌, ◌≤◌, Bool, Option, some, List, [], ◌∷◌, length, Dict, arith, Bool-cases, inl, inr, leb,
}
use data_olympus.Audit.Log.{Line, blank, garbled, scalar, object}
use data_olympus.Audit.Query.{Filters, visit, scan, scanned_lines, iter_filtered}

-- one line adds at most one answer, and then it counts
length-visit :
    (most scanned : ℕ) (f : Filters) (l : Line) (same rest : List Line)
    → length same + scanned ≤ most
    → length rest + (scanned + 1) ≤ most
    → length (visit (some most) f l same rest) + scanned ≤ most
unfolding visit
length-visit most scanned f blank same rest hs hr = hs
length-visit most scanned f garbled same rest hs hr = ground arith
length-visit most scanned f scalar same rest hs hr = ground arith
length-visit most scanned f (object ev) same rest hs hr = ground arith

length-scan :
    (most scanned : ℕ) (f : Filters) (ls : List Line)
    → scanned ≤ most
    → length (scan (some most) f scanned ls) + scanned ≤ most
unfolding scan
length-scan most scanned f [] h = ground arith
length-scan most scanned f (l ∷ ls) h = elim (Bool-cases (leb most scanned)) [
  | inl full ↦ rw full (ground arith)
  | inr free ↦ rw free (
      length-visit most scanned f l _ _ (length-scan most scanned f ls h)
        (length-scan most (scanned + 1) f ls (ground arith)))
]

-- With `max_scan_events`, `iter_filtered` answers at most so many events.
length-iter_filtered :
    (most : ℕ) (f : Filters) (include_rotated : Bool) (rotated : Dict (List Line))
    (live : Option (List Line))
    → length (iter_filtered (some most) f include_rotated rotated live) ≤ most
unfolding iter_filtered
length-iter_filtered most f include_rotated rotated live =
    ground (arith, length-scan most 0 f (scanned_lines include_rotated rotated live))
