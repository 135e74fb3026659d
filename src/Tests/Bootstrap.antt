-- ===== src/Tests/Bootstrap.antt =====
-- Runs of the onboarding guard (onboarding_inflight.py).
use data_olympus.Base.{
  false, ◌==◌, sym, ◌∙◌, eq_iff, ◌≤◌, ℕ, String, true, none, some, List, [], ◌∷◌, Dict, lookup, ◌≡◌,
  ◌≢◌, refl, arith,
}
use data_olympus.Bootstrap.{Marker, MarkerFile, marker, claim, release, read_marker, is_expired}
use data_olympus.Bootstrap.Ownership.{Request, claims, releases, handle_all, claim_keeps}

abbrev others : List Request
others = claims "u" 20 ∷ releases "u" 30 ∷ []

false-true : false ≢ true
false-true h = cc

apart : (s t : String) → (s == t) ≡ false → s ≢ t
apart s t differ h = false-true (sym differ ∙ (eq_iff s t).1 h)

first_claim : (claim 900 "slot" "t" 10 []).0 ≡ some "t"
unfolding claim read_marker is_expired lookup
first_claim = refl

claim_keeps_example :
    let after = handle_all 900 "slot" others (claim 900 "slot" "t" 10 []).1 in
    (after ≡ (claim 900 "slot" "t" 10 []).1)
    × ((claim 900 "slot" "v" 909 after).0 ≡ none)
    × ((release "slot" "t" after).0 ≡ true)
claim_keeps_example =
    claim_keeps 900 "slot" "t" "v" 10 909 others [] first_claim
      (omega arith, (apart "u" "t" refl, tt)) (omega arith)

abbrev stale : Dict MarkerFile
stale =
    ("slot", marker (record { claimed_at = some 10; expires_at = some 910; token = some "t" })) ∷ []

stale-past :
    (m : Marker) (until : ℕ)
    → lookup "slot" stale ≡ some (marker m)
    → m.expires_at ≡ some until
    → until ≤ 910
unfolding lookup
stale-past m until at e = grind arith
