-- ===== src/Search/Distinct.antt =====
-- Lists of words each of which occurs once.
use mathlib.Core.List.{append_assoc}
use data_olympus.Base.{
  String, Bool, true, not, ◌&&◌, List, [], ◌∷◌, ◌++◌, str_mem, if◌then◌else◌, ◌≡◌, refl, sym, ap,
  ◌∙◌, inl, inr, arith, eq_iff, eq_refl, Bool-cases,
}
use data_olympus.Search.Groups.{mem_snoc}

-- the words that are not in `out`
unfoldable pub outside : List String → List String → List String
outside out [] = []
outside out (x ∷ xs) = let rest = outside out xs in if str_mem x out then rest else x ∷ rest

-- each word at its first place only
unfoldable pub distinct : List String → List String
distinct [] = []
distinct (x ∷ xs) = x ∷ outside (x ∷ []) (distinct xs)

-- no word occurs twice
unfoldable pub all_different : List String → Bool
all_different [] = true
all_different (x ∷ xs) = not (str_mem x xs) && all_different xs

-- each word is in the pool
unfoldable pub all_mem : List String → List String → Bool
all_mem [] pool = true
all_mem (x ∷ xs) pool = str_mem x pool && all_mem xs pool

pub all_mem-append :
    (xs ys pool : List String) → all_mem (xs ++ ys) pool ≡ (all_mem xs pool && all_mem ys pool)
unfolding all_mem
all_mem-append [] ys pool = refl
all_mem-append (x ∷ xs) ys pool = ground (arith, all_mem-append xs ys pool)

all_mem-later :
    (xs pool : List String) (y : String) → all_mem xs pool ≡ true → all_mem xs (y ∷ pool) ≡ true
unfolding all_mem
all_mem-later [] pool y h = refl
all_mem-later (x ∷ xs) pool y h = ground (arith, all_mem-later xs pool y)

pub all_mem_refl : (xs : List String) → all_mem xs xs ≡ true
unfolding all_mem
all_mem_refl [] = refl
all_mem_refl (x ∷ xs) = ground (arith, eq_refl x, all_mem-later xs xs x (all_mem_refl xs))

pub all_different_snoc :
    (xs : List String) (m : String)
    → all_different (xs ++ m ∷ []) ≡ (all_different xs && not (str_mem m xs))
unfolding all_different
all_different_snoc [] m = refl
all_different_snoc (x ∷ xs) m =
    ground (arith, all_different_snoc xs m, mem_snoc x m xs, eq_iff x m, eq_iff m x)

pub outside_nothing : (xs : List String) → outside [] xs ≡ xs
unfolding outside
outside_nothing [] = refl
outside_nothing (x ∷ xs) = ap (λ ys. x ∷ ys) (outside_nothing xs)

-- what is left out twice is left out once
outside_member :
    (out : List String) (m : String) (xs : List String)
    → str_mem m out ≡ true
    → outside out (outside (m ∷ []) xs) ≡ outside out xs
unfolding outside
outside_member out m [] there = refl
outside_member out m (x ∷ xs) there = ground (arith, outside_member out m xs there, eq_iff x m)

outside_snoc :
    (out : List String) (m : String) (xs : List String)
    → outside (out ++ m ∷ []) xs ≡ outside out (outside (m ∷ []) xs)
unfolding outside
outside_snoc out m [] = refl
outside_snoc out m (x ∷ xs) = ground (arith, outside_snoc out m xs, mem_snoc x m out)

-- how a list with one more word goes on
pub outside-distinct :
    (out : List String) (m : String) (ms : List String)
    → (if str_mem m out then out else out ++ m ∷ [])
        ++ outside (if str_mem m out then out else out ++ m ∷ []) (distinct ms)
      ≡ out ++ outside out (distinct (m ∷ ms))
unfolding distinct outside
outside-distinct out m ms = elim (Bool-cases (str_mem m out)) [
  | inl there ↦ rw there (ap (λ ys. out ++ ys) (sym (outside_member out m (distinct ms) there)))
  | inr new ↦ rw new (
      append_assoc out (m ∷ []) (outside (out ++ m ∷ []) (distinct ms))
      ∙ ap (λ ys. out ++ m ∷ ys) (outside_snoc out m (distinct ms)))
]
