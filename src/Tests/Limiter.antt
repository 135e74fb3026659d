-- ===== src/Tests/Limiter.antt =====
-- Runs of the rate limiter (rate_limit.py).
use data_olympus.Base.{ℕ, true, false, List, [], ◌∷◌, ◌≡◌, refl, arith}
use data_olympus.Limiter.{Caller, fresh, serve, allow, prune, store}
use data_olympus.Limiter.Refinement.{spec_serve, nothing, serve_refinement}

-- two callers at one address
abbrev requests : List (ℕ × Caller)
requests =
    (10, ("10.0.0.1", "a"))
    ∷ (20, ("10.0.0.1", "b"))
    ∷ (30, ("10.0.0.1", "a"))
    ∷ (3700, ("10.0.0.1", "a"))
    ∷ []

serve-requests : (serve 1 3 requests fresh).0 ≡ true ∷ true ∷ false ∷ true ∷ []
unfolding serve allow prune store
serve-requests = refl

serve_refinement_example : (serve 1 3 requests fresh).0 ≡ (spec_serve 1 3 requests nothing).0
serve_refinement_example =
    serve_refinement 1 3 requests (omega arith, (omega arith, (omega arith, (omega arith, tt))))
