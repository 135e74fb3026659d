-- ===== src/Tests/Lane.antt =====
-- Runs of the governed lane (governed_lane.py, format/validate.py).
use data_olympus.Base.{
  ℕ, String, true, false, not, ◌&&◌, Option, none, some, [], ◌∷◌, str_mem, ◌≡◌, refl,
}
use data_olympus.Lane.Validity.{
  is_in_force, is_expired, is_upcoming, compute_freshness, in_force_statuses,
}
use data_olympus.Lane.Governed.{
  Frontmatter, check_status_clamp, Index, IndexedDoc, returned, evaluate_governed_lane,
  governed_target_state, map_state, id_of_path, doc_state,
}
use data_olympus.Lane.Force.{out_of_window, in_force-freshness}
use data_olympus.Lane.FailClosed.{IndexClears, undemoted_verified}

abbrev draft : IndexedDoc
draft = record {
  id = "d1";
  status = "draft";
  valid_from = none;
  valid_until = none;
  is_inbox = false;
}

abbrev index : Index
index = record {
  id_to_path_map = returned (some (("d1", "a.md") ∷ []));
  get = λ i. returned (some draft);
  graph_excluded_ids = returned [];
}

abbrev postimage : Option Frontmatter
postimage = some (record { status = some "draft"; valid_from = none; valid_until = none })

passes :
    (evaluate_governed_lane postimage [] "a.md" (some index) true "2026-01-01").demotion_reason
    ≡ none
unfolding evaluate_governed_lane check_status_clamp governed_target_state map_state id_of_path
    doc_state is_in_force
passes = refl

undemoted_verified_example :
    (check_status_clamp postimage ≡ none) × IndexClears (some index) "a.md" "2026-01-01"
undemoted_verified_example = undemoted_verified postimage [] "a.md" (some index) "2026-01-01" passes

active : is_in_force "active" none (some "2026-06-30") "2026-01-01" false ≡ true
unfolding is_in_force is_expired is_upcoming
active = refl

-- the day numbers of a calendar stand for no date
abbrev no_days : String → String → Option ℕ
no_days s t = none

in_force-freshness_example : is_in_force "active" none (some "2025-06-30") "2026-01-01" false ≡ (
    not false
    && (str_mem "active" in_force_statuses
        && not (
            out_of_window
              (compute_freshness no_days none (some "2025-06-30") none none "2026-01-01" none))))
in_force-freshness_example =
    in_force-freshness no_days "active" none (some "2025-06-30") none none "2026-01-01" none false
