-- ===== src/Limiter/Window.antt =====
-- rate_limit.py: laws of the pruning to the window of one hour.
use data_olympus.Base.{ℕ, ◌≤◌, List, [], ◌∷◌, ◌++◌, length, ◌≡◌, refl, arith}
use data_olympus.Limiter.{prune}

pub prune-append : (now : ℕ) (xs ys : List ℕ) → prune now (xs ++ ys) ≡ prune now xs ++ prune now ys
unfolding prune
prune-append now [] ys = refl
prune-append now (t ∷ xs) ys = ground (arith, prune-append now xs ys)

pub prune-prune :
    (now later : ℕ) (xs : List ℕ) → now ≤ later → prune later (prune now xs) ≡ prune later xs
unfolding prune
prune-prune now later [] h = refl
prune-prune now later (t ∷ xs) h = ground (arith, prune-prune now later xs)

pub length-prune-le :
    (now later : ℕ) (xs : List ℕ) → now ≤ later → length (prune later xs) ≤ length (prune now xs)
unfolding prune
length-prune-le now later [] h = omega arith
length-prune-le now later (t ∷ xs) h = ground (arith, length-prune-le now later xs)
