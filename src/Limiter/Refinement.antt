-- ===== src/Limiter/Refinement.antt =====
-- rate_limit.py: the abstract specification of `allow`, which remembers every admission, and the
-- relation between its histories and the buckets.
use mathlib.Core.Path.{ap₂}
use data_olympus.Base.{
  ℕ, String, ◌≤◌, Bool, true, false, not, ◌&&◌, Option, List, [], ◌∷◌, ◌++◌, length, leb, ltb, ◌≡◌,
  refl, sym, ◌∙◌, ap, arith, if◌then◌else◌, Bool-cases, inl, inr, ◌==◌, eq_iff, &&-true,
}
use data_olympus.Limiter.{
  Caller, same_caller, Limiter, fresh, times, prune, evict, store, allow, serve,
}
use data_olympus.Limiter.Window.{prune-append, prune-prune}

-- every admission so far, by caller and by address, oldest first
pub record History : Type 0 where
  pub by_caller : Caller → List ℕ
  pub by_ip : String → List ℕ

abbrev pub nothing : History
nothing = record { by_caller = λ k. []; by_ip = λ a. [] }

-- a list with one more entry at a key
abbrev pub extended {ℓ} : {K : Type ℓ} → (K → K → Bool) → K → ℕ → (K → List ℕ) → K → List ℕ
extended same key now h k = if same k key then h key ++ now ∷ [] else h k

module _ (max_per_hour max_per_ip_per_hour : ℕ) where
  -- fewer than the limit in the last hour, and fewer than the address limit, if there is one
  unfoldable pub has_room : ℕ → Caller → History → Bool
  has_room now key h =
      not
        (ltb 0 max_per_ip_per_hour && leb max_per_ip_per_hour (length (prune now (h.by_ip key.0))))
      && not (leb max_per_hour (length (prune now (h.by_caller key))))

  unfoldable pub spec_allow : ℕ → Caller → History → Bool × History
  spec_allow now key h =
      if has_room now key h
      then (
        true,
        record {
          by_caller = extended same_caller key now h.by_caller;
          by_ip = extended ◌==◌ key.0 now h.by_ip;
        },
      )
      else (false, h)

  unfoldable pub spec_serve : List (ℕ × Caller) → History → List Bool × History
  spec_serve [] h = ([], h)
  spec_serve ((now, key) ∷ rs) h =
      let (b, h') = spec_allow now key h in let (bs, h'') = spec_serve rs h' in (b ∷ bs, h'')

times-evict : (xs : List ℕ) → times (evict xs) ≡ xs
times-evict [] = refl
times-evict (x ∷ xs) = refl

-- at no later time can the two be told apart
abbrev Matches {ℓ} : {K : Type ℓ} → ℕ → (K → Option (List ℕ)) → (K → List ℕ) → Type ℓ
Matches {K = K} last m h =
    (k : K) (now : ℕ) → last ≤ now → prune now (times (m k)) ≡ prune now (h k)

module _ {ℓ} {K : Type ℓ} (same : K → K → Bool) (sound : (a b : K) → same a b ≡ true → a ≡ b)
    (m : K → Option (List ℕ)) (h : K → List ℕ) (last now : ℕ) (key : K) (ordered : last ≤ now)
    (match : Matches last m h) where
  store-Matches : Matches now (store same key (prune now (times (m key))) m) h
  unfolding store
  store-Matches k later le = elim (Bool-cases (same k key)) [
    | inl is ↦
        rw (is, times-evict, prune-prune now later (times (m key)) le)
          (match key later (omega arith) ∙ ap (λ x. prune later (h x)) (sym (sound k key is)))
    | inr is ↦ rw is (match k later (omega arith))
  ]

  extend-Matches :
      Matches now
        (store same key (prune now (times (m key)) ++ now ∷ []) m)
        (extended same key now h)
  unfolding store
  extend-Matches k later le = elim (Bool-cases (same k key)) [
    | inl is ↦
        rw (is, times-evict, prune-append, prune-append, prune-prune now later (times (m key)) le)
          (ap (λ x. x ++ prune later (now ∷ [])) (match key later (omega arith)))
    | inr is ↦ rw is (match k later (omega arith))
  ]

same_caller-eq : (a b : Caller) → same_caller a b ≡ true → a ≡ b
same_caller-eq (a, i) (b, j) h =
    let (p, q) = &&-true (a == b) (i == j) h in
    ap₂ (λ x y. (x, y)) ((eq_iff a b).0 p) ((eq_iff i j).0 q)

str_eq-eq : (a b : String) → (a == b) ≡ true → a ≡ b
str_eq-eq a b = (eq_iff a b).0

module _ (max_per_hour max_per_ip_per_hour : ℕ) where
  record Refines (last : ℕ) (l : Limiter) (h : History) : Type 0 where
    callers : Matches last l.buckets h.by_caller
    addresses : ltb 0 max_per_ip_per_hour ≡ true → Matches last l.ip_buckets h.by_ip

  abbrev Agrees : ℕ → Bool × Limiter → Bool × History → Type 0
  Agrees now x y = (x.0 ≡ y.0) × Refines now x.1 y.1

  module _ (last now : ℕ) (key : Caller) (l : Limiter) (h : History) (le : last ≤ now)
      (r : Refines last l h) where
    same_count : length (prune now (times (l.buckets key))) ≡ length (prune now (h.by_caller key))
    same_count = ap length (r.callers key now le)

    same_ip_count :
        ltb 0 max_per_ip_per_hour ≡ true
        → length (prune now (times (l.ip_buckets key.0))) ≡ length (prune now (h.by_ip key.0))
    same_ip_count p = ap length (r.addresses p key.0 now le)

    caller_stored :
        Matches now
          (store same_caller key (prune now (times (l.buckets key))) l.buckets)
          h.by_caller
    caller_stored =
        store-Matches same_caller same_caller-eq l.buckets h.by_caller last now key le r.callers

    caller_extended :
        Matches now
          (store same_caller key (prune now (times (l.buckets key)) ++ now ∷ []) l.buckets)
          (extended same_caller key now h.by_caller)
    caller_extended =
        extend-Matches same_caller same_caller-eq l.buckets h.by_caller last now key le r.callers

    ip_stored :
        ltb 0 max_per_ip_per_hour ≡ true
        → Matches now
            (store ◌==◌ key.0 (prune now (times (l.ip_buckets key.0))) l.ip_buckets)
            h.by_ip
    ip_stored p =
        store-Matches ◌==◌ str_eq-eq l.ip_buckets h.by_ip last now key.0 le (r.addresses p)

    ip_extended :
        ltb 0 max_per_ip_per_hour ≡ true
        → Matches now
            (store ◌==◌ key.0 (prune now (times (l.ip_buckets key.0)) ++ now ∷ []) l.ip_buckets)
            (extended ◌==◌ key.0 now h.by_ip)
    ip_extended p =
        extend-Matches ◌==◌ str_eq-eq l.ip_buckets h.by_ip last now key.0 le (r.addresses p)

    by_tests :
        (p a b : Bool)
        → ltb 0 max_per_ip_per_hour ≡ p
        → leb max_per_ip_per_hour (length (prune now (h.by_ip key.0))) ≡ a
        → leb max_per_hour (length (prune now (h.by_caller key))) ≡ b
        → Agrees now
            (allow max_per_hour max_per_ip_per_hour now key l)
            (spec_allow max_per_hour max_per_ip_per_hour now key h)
    unfolding allow spec_allow has_room
    by_tests true true b pe ae be =
        rw (same_ip_count pe, pe, ae)
          (refl, record { callers = caller_stored; addresses = ip_stored })
    by_tests true false true pe ae be =
        rw (same_ip_count pe, same_count, pe, ae, be)
          (refl, record { callers = caller_stored; addresses = ip_stored })
    by_tests true false false pe ae be =
        rw (same_ip_count pe, same_count, pe, ae, be)
          (refl, record { callers = caller_extended; addresses = ip_extended })
    by_tests false a true pe ae be =
        rw (same_count, pe, be)
          (refl, record { callers = caller_stored; addresses = λ p. absurd (cc (pe, p)) })
    by_tests false a false pe ae be =
        rw (same_count, pe, be)
          (refl, record { callers = caller_extended; addresses = λ p. absurd (cc (pe, p)) })

    allow-Agrees :
        Agrees now
          (allow max_per_hour max_per_ip_per_hour now key l)
          (spec_allow max_per_hour max_per_ip_per_hour now key h)
    allow-Agrees = by_tests _ _ _ refl refl refl

  -- the requests come in the order of their times, none before `last`
  abbrev pub Ordered : ℕ → List (ℕ × Caller) → Type 0
  Ordered last [] = Unit
  Ordered last ((now, key) ∷ rs) = (last ≤ now) × Ordered now rs

  serve-Refines :
      (last : ℕ) (rs : List (ℕ × Caller)) (l : Limiter) (h : History)
      → Refines last l h
      → Ordered last rs
      → (serve max_per_hour max_per_ip_per_hour rs l).0
        ≡ (spec_serve max_per_hour max_per_ip_per_hour rs h).0
  unfolding serve spec_serve
  serve-Refines last [] l h r o = refl
  serve-Refines last ((now, key) ∷ rs) l h r o =
      let (same, r') = allow-Agrees last now key l h o.0 r in
      ap₂ ◌∷◌ same (serve-Refines now rs _ _ r' o.1)

  -- Over any requests in the order of their times, a fresh limiter gives the answers of the
  -- specification that remembers every admission: admit exactly if the caller, and the address if it
  -- has a limit, have had fewer admissions than the limit in the last 3600 seconds.
  pub serve_refinement :
      (rs : List (ℕ × Caller))
      → Ordered 0 rs
      → (serve max_per_hour max_per_ip_per_hour rs fresh).0
        ≡ (spec_serve max_per_hour max_per_ip_per_hour rs nothing).0
  serve_refinement rs o =
      serve-Refines 0 rs fresh nothing
        (record { callers = λ k now le. refl; addresses = λ p k now le. refl }) o
