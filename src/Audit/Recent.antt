-- ===== src/Audit/Recent.antt =====
-- audit_log.py: the answers of `iter_filtered` against a plain filter, and their number.
use data_olympus.Base.{
  ℕ, ◌+◌, ◌≤◌, ◌<◌, Bool, true, false, ◌&&◌, Option, none, some, List, [], ◌∷◌, Dict, ◌≡◌, refl,
  sym, ◌⊎◌, arith, if◌then◌else◌, inl, inr,
}
use data_olympus.Audit.Log.{Event, Line, blank, garbled, scalar, object}
use data_olympus.Audit.Query.{
  Filters, time_of, Timing, in_window, no_time, too_old, against, timing, matches, no_filters,
  visit, scan, scanned_lines, iter_filtered,
}

abbrev is_in_window : Timing → Bool
is_in_window in_window = true
is_in_window no_time = false
is_in_window too_old = false

-- the lines that are asked for
abbrev pub is_wanted : Filters → Line → Bool
is_wanted f blank = false
is_wanted f garbled = false
is_wanted f scalar = no_filters f
is_wanted f (object ev) = is_in_window (timing f.since ev) && matches f ev

unfoldable pub wanted : Filters → List Line → List Line
wanted f [] = []
wanted f (l ∷ ls) = let rest = wanted f ls in if is_wanted f l then l ∷ rest else rest

abbrev pub AtMost : ℕ → Option ℕ → Type 0
AtMost t none = Unit
AtMost t (some u) = u ≤ t

-- no event has a later time than `t`
abbrev pub NoLater : ℕ → List Line → Type 0
NoLater t [] = Unit
NoLater t (blank ∷ ls) = NoLater t ls
NoLater t (garbled ∷ ls) = NoLater t ls
NoLater t (scalar ∷ ls) = NoLater t ls
NoLater t (object ev ∷ ls) = AtMost t (time_of ev) × NoLater t ls

abbrev NoLaterThan : Option ℕ → List Line → Type 0
NoLaterThan none ls = Unit
NoLaterThan (some t) ls = NoLater t ls

-- after an event with a time, no event has a later one
abbrev pub IsFalling : List Line → Type 0
IsFalling [] = Unit
IsFalling (blank ∷ ls) = IsFalling ls
IsFalling (garbled ∷ ls) = IsFalling ls
IsFalling (scalar ∷ ls) = IsFalling ls
IsFalling (object ev ∷ ls) = NoLaterThan (time_of ev) ls × IsFalling ls

-- the test of a time against the floor, and what the scan makes of it
timing_early-against :
    (floor t : ℕ) (o : Option ℕ) → AtMost t o → t < floor → is_in_window (against floor o) ≡ false
timing_early-against floor t none h lt = refl
timing_early-against floor t (some u) h lt = ground arith

module _ (f : Filters) (floor : ℕ) (since : f.since ≡ some floor) where
  timing-early :
      (ev : Event) (t : ℕ)
      → AtMost t (time_of ev)
      → t < floor
      → is_in_window (timing f.since ev) ≡ false
  unfolding timing
  timing-early ev t h lt = rw since (timing_early-against floor t (time_of ev) h lt)

  no_filters-since : no_filters f ≡ false
  unfolding no_filters
  no_filters-since = rw since refl

  wanted-early : (t : ℕ) (ls : List Line) → NoLater t ls → t < floor → wanted f ls ≡ []
  unfolding wanted
  wanted-early t [] h lt = refl
  wanted-early t (blank ∷ ls) h lt = wanted-early t ls h lt
  wanted-early t (garbled ∷ ls) h lt = wanted-early t ls h lt
  wanted-early t (scalar ∷ ls) h lt = rw no_filters-since (wanted-early t ls h lt)
  wanted-early t (object ev ∷ ls) h lt = rw (timing-early ev t h.0 lt) (wanted-early t ls h.1 lt)

too_old-against :
    (floor : ℕ) (o : Option ℕ) → against floor o ≡ too_old → (t : ℕ) × (o ≡ some t) × (t < floor)
too_old-against floor none h = cc
too_old-against floor (some t) h = (t, refl, ground arith)

-- the time of an event that ends the scan
too_old-timing :
    (since : Option ℕ) (ev : Event)
    → timing since ev ≡ too_old
    → (floor : ℕ) × (since ≡ some floor) × (t : ℕ) × (time_of ev ≡ some t) × (t < floor)
unfolding timing
too_old-timing none ev h = cc
too_old-timing (some floor) ev h =
    let (t, time, lt) = too_old-against floor (time_of ev) h in (floor, refl, t, time, lt)

timing-cases :
    (since : Option ℕ) (ev : Event)
    → (timing since ev ≡ no_time) ⊎ ((timing since ev ≡ in_window) ⊎ (timing since ev ≡ too_old))
timing-cases since ev = by_cases (timing since ev)
  where
    by_cases : (t : Timing) → (t ≡ no_time) ⊎ ((t ≡ in_window) ⊎ (t ≡ too_old))
    by_cases no_time = inl refl
    by_cases in_window = inr (inl refl)
    by_cases too_old = inr (inr refl)

later_none :
    (f : Filters) (ev : Event) (ls : List Line)
    → timing f.since ev ≡ too_old
    → NoLaterThan (time_of ev) ls
    → wanted f ls ≡ []
later_none f ev ls h late =
    let (floor, since, t, time, lt) = too_old-timing f.since ev h in
    wanted-early f floor since t ls (rw time at late) lt

-- without a limit the count does not matter
scan-wanted : (f : Filters) (k : ℕ) (ls : List Line) → IsFalling ls → scan none f k ls ≡ wanted f ls
unfolding scan wanted visit
scan-wanted f k [] falling = refl
scan-wanted f k (blank ∷ ls) falling = scan-wanted f k ls falling
scan-wanted f k (garbled ∷ ls) falling = scan-wanted f (k + 1) ls falling
scan-wanted f k (scalar ∷ ls) falling = rw (scan-wanted f (k + 1) ls falling) refl
scan-wanted f k (object ev ∷ ls) falling =
    let rest = scan-wanted f (k + 1) ls falling.1 in
    elim (timing-cases f.since ev) [
      | inl h ↦ rw (h, scan, visit) rest
      | inr (inl h) ↦ rw (h, scan, visit, rest) refl
      | inr (inr h) ↦ rw (h, scan, visit) (sym (later_none f ev ls h falling.0))
    ]

-- Without a limit, where no event of the lines has a later time than one before it (an event
-- without a time is no bar), `iter_filtered` answers exactly the lines that the filters want, in
-- their order, although the scan ends at the first event before `since`.
pub iter_filtered-wanted :
    (f : Filters) (include_rotated : Bool) (rotated : Dict (List Line)) (live : Option (List Line))
    → IsFalling (scanned_lines include_rotated rotated live)
    → iter_filtered none f include_rotated rotated live
      ≡ wanted f (scanned_lines include_rotated rotated live)
unfolding iter_filtered
iter_filtered-wanted f include_rotated rotated live falling =
    scan-wanted f 0 (scanned_lines include_rotated rotated live) falling
