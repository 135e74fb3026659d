-- ===== src/Bootstrap.antt =====
-- src/data_olympus/onboarding_inflight.py: the in-flight guard of onboarding bootstrap. One marker
-- file for each slot; `claim` and `release` run under the slot's OS lock, so each is one step.
pub mod Ownership
use data_olympus.Base.{
  ℕ, String, ◌+◌, Bool, true, false, not, Option, none, some, List, leb, Dict, lookup, put, remove,
  if◌then◌else◌, ◌==◌,
}

-- A field is `none` where it is absent or of another type.
pub record Marker : Type 0 where
  pub claimed_at : Option ℕ
  pub expires_at : Option ℕ
  pub token : Option String

-- a marker's file: a JSON object, or anything else
pub data MarkerFile : Type 0 where
  marker : Marker → MarkerFile
  unreadable : MarkerFile

unfoldable pub read_marker : String → Dict MarkerFile → Option Marker
read_marker slot d = elim (lookup slot d) [
  | none ↦ none
  | some unreadable ↦ none
  | some (marker m) ↦ some m
]

unfoldable pub is_expired : ℕ → Option Marker → Bool
is_expired now none = true
is_expired now (some m) = elim m.expires_at [ none ↦ true | some t ↦ leb t now ]

module _ (ttl_seconds : ℕ) where
  -- `token` is the fresh random token of this claim
  unfoldable pub claim : String → String → ℕ → Dict MarkerFile → Option String × Dict MarkerFile
  claim slot token now d = if not (is_expired now (read_marker slot d)) then (none, d) else (
    some token,
    put slot
        (marker (record {
          claimed_at = some now;
          expires_at = some (now + ttl_seconds);
          token = some token;
        }))
        d,
  )

abbrev pub carries : String → Option Marker → Bool
carries token none = false
carries token (some m) = elim m.token [ none ↦ false | some t ↦ t == token ]

unfoldable pub release : String → String → Dict MarkerFile → Bool × Dict MarkerFile
release slot token d =
    if carries token (read_marker slot d) then (true, remove slot d) else (false, d)
