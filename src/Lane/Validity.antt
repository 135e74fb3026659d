-- ===== src/Lane/Validity.antt =====
-- format/validate.py: `is_expired`, `is_upcoming`, `is_in_force`, `is_retired` and
-- `compute_freshness`. `days_since` is the age of a date, `none` where it is no ISO date.
use Prim.Native.String.{compare}
use text.Mathlib.Text.{is_lt}
use data_olympus.Base.{
  ℕ, String, Bool, true, false, not, ◌&&◌, ◌||◌, Option, none, some, List, [], ◌∷◌, str_mem, ltb,
  if◌then◌else◌, ◌==◌,
}

-- Python's `<` on texts
abbrev pub str_lt : String → String → Bool
str_lt s t = is_lt (compare s t)

abbrev pub in_force_statuses : List String
in_force_statuses = "active" ∷ "accepted" ∷ "approved" ∷ []

abbrev pub retired_statuses : List String
retired_statuses = "deprecated" ∷ "superseded" ∷ "rejected" ∷ []

unfoldable pub is_expired : Option String → String → Bool
is_expired none today = false
is_expired (some valid_until) today = not (valid_until == "") && str_lt valid_until today

unfoldable pub is_upcoming : Option String → String → Bool
is_upcoming none today = false
is_upcoming (some valid_from) today = not (valid_from == "") && str_lt today valid_from

unfoldable pub is_in_force : String → Option String → Option String → String → Bool → Bool
is_in_force status valid_from valid_until today is_inbox =
    if is_inbox
    then false
    else if not (str_mem status in_force_statuses)
    then false
    else not (is_expired valid_until today) && not (is_upcoming valid_from today)

unfoldable pub is_retired : String → Option String → String → Bool → Bool
is_retired status valid_until today graph_excluded =
    if graph_excluded || str_mem status retired_statuses then true else is_expired valid_until today

-- the state and the reason, one constructor for each message
pub data Freshness : Type 0 where
  fresh expired upcoming recheck_passed never_verified : Freshness
  verification_old : ℕ → Freshness

-- a text that is there and not empty
abbrev pub given : Option String → Option String
given none = none
given (some s) = if s == "" then none else some s

module _ (days_since : String → String → Option ℕ) where
  unfoldable pub by_age : Option ℕ → ℕ → Freshness
  by_age none threshold = fresh
  by_age (some days) threshold = if ltb threshold days then verification_old days else fresh

  unfoldable pub by_verification : Option String → String → Option ℕ → Freshness
  by_verification last_verified today none = fresh
  by_verification last_verified today (some threshold) =
      if not (ltb 0 threshold) then fresh else elim (given last_verified) [
        | none ↦ never_verified
        | some date ↦ by_age (days_since date today) threshold
      ]

  unfoldable pub by_recheck : Option String → Option String → String → Option ℕ → Freshness
  by_recheck (some date) last_verified today threshold =
      if str_lt date today then recheck_passed else fresh
  by_recheck none last_verified today threshold = by_verification last_verified today threshold

  unfoldable pub compute_freshness :
      Option String → Option String → Option String → Option String → String → Option ℕ → Freshness
  compute_freshness valid_from valid_until recheck_by last_verified today threshold =
      if is_expired valid_until today
      then expired
      else if is_upcoming valid_from today
      then upcoming
      else by_recheck (given recheck_by) last_verified today threshold
