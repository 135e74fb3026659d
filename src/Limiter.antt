-- ===== src/Limiter.antt =====
-- src/data_olympus/rate_limit.py: the sliding-window limiter. Times are whole seconds. The bucket
-- dictionaries are functions from a key to a bucket that may be missing.
pub mod Window
pub mod Refinement
use data_olympus.Base.{
  ℕ, String, ◌+◌, Bool, true, false, ◌&&◌, Option, none, some, List, [], ◌∷◌, ◌++◌, length, leb,
  ltb, if◌then◌else◌, ◌==◌,
}

-- a caller's key: its address and its identity
abbrev pub Caller : Type 0
Caller = String × String

abbrev pub same_caller : Caller → Caller → Bool
same_caller (a, i) (b, j) = (a == b) && (i == j)

pub record Limiter : Type 0 where
  pub buckets : Caller → Option (List ℕ)
  pub ip_buckets : String → Option (List ℕ)

abbrev pub fresh : Limiter
fresh = record { buckets = λ k. none; ip_buckets = λ k. none }

abbrev pub times : Option (List ℕ) → List ℕ
times none = []
times (some ts) = ts

-- 3600 seconds: `t > now - 3600` is `now < t + 3600`
unfoldable pub prune : ℕ → List ℕ → List ℕ
prune now [] = []
prune now (t ∷ ts) = let rest = prune now ts in if ltb now (t + 3600) then t ∷ rest else rest

-- `_store` deletes the key of an empty list
abbrev pub evict : List ℕ → Option (List ℕ)
evict [] = none
evict (t ∷ ts) = some (t ∷ ts)

unfoldable pub store {ℓ} :
    {K : Type ℓ} → (K → K → Bool) → K → List ℕ → (K → Option (List ℕ)) → K → Option (List ℕ)
store same key values m k = if same k key then evict values else m k

module _ (max_per_hour max_per_ip_per_hour : ℕ) where
  -- both lists written back
  abbrev pub stored_both : Caller → List ℕ → List ℕ → Limiter → Limiter
  stored_both key ts ips l = record l {
    buckets = store same_caller key ts l.buckets;
    ip_buckets = store ◌==◌ key.0 ips l.ip_buckets;
  }

  abbrev pub stored_one : Caller → List ℕ → Limiter → Limiter
  stored_one key ts l = record l { buckets = store same_caller key ts l.buckets }

  unfoldable pub allow : ℕ → Caller → Limiter → Bool × Limiter
  allow now key l =
      let pruned = prune now (times (l.buckets key)) in
      let ip_pruned = prune now (times (l.ip_buckets key.0)) in
      if ltb 0 max_per_ip_per_hour
      then if leb max_per_ip_per_hour (length ip_pruned)
        then (false, stored_both key pruned ip_pruned l)
        else if leb max_per_hour (length pruned)
        then (false, stored_both key pruned ip_pruned l)
        else (true, stored_both key (pruned ++ now ∷ []) (ip_pruned ++ now ∷ []) l)
      else if leb max_per_hour (length pruned)
      then (false, stored_one key pruned l)
      else (true, stored_one key (pruned ++ now ∷ []) l)

  -- the answers to a sequence of requests
  unfoldable pub serve : List (ℕ × Caller) → Limiter → List Bool × Limiter
  serve [] l = ([], l)
  serve ((now, key) ∷ rs) l =
      let (b, l') = allow now key l in let (bs, l'') = serve rs l' in (b ∷ bs, l'')
