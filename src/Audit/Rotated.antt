-- ===== src/Audit/Rotated.antt =====
-- audit_log.py: the name that `_rotated_path_for` answers.
use data_olympus.Base.{
  ℕ, suc, ◌+◌, ◌≤◌, String, true, false, not, ◌&&◌, List, [], ◌∷◌, length, str_mem, if◌then◌else◌,
  ◌==◌, ◌≡◌, refl, sym, ◌∙◌, subst, inl, inr, arith, eq_iff, Bool-cases,
}
use data_olympus.Audit.Log.{LogFiles, rotated_name, free_name, rotated_path_for}
use data_olympus.Audit.Segments.{Latest}

Latest-new : (n : String) (ks : List String) → Latest n ks → str_mem n ks ≡ false
Latest-new n [] h = refl
Latest-new n (k ∷ ks) (new, _, h) = ground (arith, new, eq_iff n k, eq_iff k n, Latest-new n ks h)

unfoldable others : String → List String → List String
others x [] = []
others x (y ∷ ys) = let rest = others x ys in if y == x then rest else y ∷ rest

mem-others :
    (r x : String) (ys : List String) → str_mem r (others x ys) ≡ (str_mem r ys && not (r == x))
unfolding others
mem-others r x [] = refl
mem-others r x (y ∷ ys) = ground (arith, mem-others r x ys, eq_iff r y, eq_iff y x, eq_iff r x)

length-others : (x : String) (ys : List String) → length (others x ys) ≤ length ys
unfolding others
length-others x [] = omega arith
length-others x (y ∷ ys) = ground (arith, length-others x ys)

length-others_mem :
    (x : String) (ys : List String) → str_mem x ys ≡ true → length (others x ys) + 1 ≤ length ys
unfolding others
length-others_mem x [] h = cc
length-others_mem x (y ∷ ys) h =
    ground (arith, length-others x ys, length-others_mem x ys, eq_iff x y, eq_iff y x)

module _ (files : LogFiles) (stamp : String) where
  -- where the first name that is tried is the latest, it is taken
  rotated_path_for_first :
      (names : List String)
      → str_mem (rotated_name files stamp 0) names ≡ false
      → rotated_path_for files stamp names ≡ rotated_name files stamp 0
  unfolding rotated_path_for free_name
  rotated_path_for_first [] h = refl
  rotated_path_for_first (k ∷ ks) h = rw h refl

  pub rotated_path_for-Latest :
      (names : List String)
      → Latest (rotated_name files stamp 0) names
      → Latest (rotated_path_for files stamp names) names
  rotated_path_for-Latest names h =
      subst (λ n. Latest n names)
        (sym (rotated_path_for_first names (Latest-new (rotated_name files stamp 0) names h))) h

  -- the answer is one of the names from `n` on
  free_name-rotated_name :
      (left names : List String) (n : ℕ)
      → (m : ℕ) × (n ≤ m) × (free_name files stamp names left n ≡ rotated_name files stamp m)
  unfolding free_name
  free_name-rotated_name [] names n = (n, omega arith, refl)
  free_name-rotated_name (x ∷ left) names n =
      let (m, later, is) = free_name-rotated_name left names (suc n) in
      elim (Bool-cases (str_mem (rotated_name files stamp n) names)) [
        | inl taken ↦ (m, omega arith, rw taken is)
        | inr free ↦ (n, omega arith, rw free refl)
      ]

  -- names that differ only before `n` make no difference from `n` on
  free_name_agrees :
      (left names names' : List String) (n : ℕ)
      → ((m : ℕ)
          → n ≤ m
          → str_mem (rotated_name files stamp m) names
            ≡ str_mem (rotated_name files stamp m) names')
      → free_name files stamp names left n ≡ free_name files stamp names' left n
  unfolding free_name
  free_name_agrees [] names names' n same = refl
  free_name_agrees (x ∷ left) names names' n same =
      let rest = free_name_agrees left names names' (suc n) (λ m later. same m (omega arith)) in
      rw (same n (omega arith), rest) refl

  module _
      (apart : (n m : ℕ) → rotated_name files stamp n ≡ rotated_name files stamp m → n ≡ m) where
    differs :
        (n m : ℕ) → suc n ≤ m → (rotated_name files stamp m == rotated_name files stamp n) ≡ false
    differs n m later =
        elim (Bool-cases (rotated_name files stamp m == rotated_name files stamp n)) [
          | inl same ↦
              let equal : m ≡ n =
                apart m n
                  ((eq_iff (rotated_name files stamp m) (rotated_name files stamp n)).0 same) in
              absurd (omega arith)
          | inr other ↦ other
        ]

    free_name_new :
        (left names : List String) (n : ℕ)
        → length names ≤ length left
        → str_mem (free_name files stamp names left n) names ≡ false
    unfolding free_name
    free_name_new [] [] n few = refl
    free_name_new [] (x ∷ names) n few = absurd (ground arith)
    free_name_new (x ∷ left) names n few =
        elim (Bool-cases (str_mem (rotated_name files stamp n) names)) [
          | inl taken ↦ rw taken (
              again taken (
                free_name_new left (others (rotated_name files stamp n) names) (suc n)
                  (shorter (length-others_mem (rotated_name files stamp n) names taken) few)))
          | inr free ↦ rw free free
        ]
      where
        rest : List String
        rest = others (rotated_name files stamp n) names

        shorter : {a b : ℕ} → a + 1 ≤ b → b ≤ suc (length left) → a ≤ length left
        shorter less fits = omega arith

        same :
            (m : ℕ)
            → suc n ≤ m
            → str_mem (rotated_name files stamp m) names ≡ str_mem (rotated_name files stamp m) rest
        same m later = ground (
          arith,
          mem-others (rotated_name files stamp m) (rotated_name files stamp n) names,
          differs n m later,
        )

        again :
            str_mem (rotated_name files stamp n) names ≡ true
            → str_mem (free_name files stamp rest left (suc n)) rest ≡ false
            → str_mem (free_name files stamp names left (suc n)) names ≡ false
        again taken new =
            let (m, later, is) = free_name-rotated_name left names (suc n) in
            let agrees = free_name_agrees left names rest (suc n) same in
            rw is (same m later ∙ subst (λ r. str_mem r rest ≡ false) (sym agrees ∙ is) new)

    -- Enough names are tried: where the names that are tried differ, none of the files has the answer.
    pub rotated_path_for_new :
        (names : List String) → str_mem (rotated_path_for files stamp names) names ≡ false
    unfolding rotated_path_for
    rotated_path_for_new names = free_name_new names names 0 (omega arith)
