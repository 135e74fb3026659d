-- ===== src/Search/Bounded.antt =====
-- query_expansion.py: the expander keeps the terms of the query and its bound.
use mathlib.Core.List.{append_assoc, append-nil}
use data_olympus.Base.{
  ℕ, suc, ◌≤◌, String, true, false, &&-true, List, [], ◌∷◌, ◌++◌, Dict, str_mem, length, leb,
  Bool-cases, if_both, ◌≡◌, ◌⊎◌, inl, inr, refl, sym, ap, ◌∙◌, arith,
}
use data_olympus.Search.Synonyms.{
  append_new, append_all, bucket_of, add_terms, scan_keys, keys_of, expander,
}
use data_olympus.Search.Distinct.{
  outside, distinct, all_different, all_mem, all_mem-append, all_mem_refl, all_different_snoc,
  outside_nothing, outside-distinct,
}

-- `out` grown by terms of the pool behind it, within the bound where there are any
pub record Grown (max_terms : ℕ) (pool out out' : List String) : Type 0 where
  pub added : List String
  pub behind : out' ≡ out ++ added
  pub known : all_mem added pool ≡ true
  pub bounded : (added ≡ []) ⊎ (length out' ≤ max_terms)

module _ (max_terms : ℕ) (pool : List String) where
  Grown-refl : (out : List String) → Grown max_terms pool out out
  unfolding all_mem
  Grown-refl out = record {
    added = [];
    behind = sym (append-nil out);
    known = refl;
    bounded = inl refl;
  }

  Grown-trans :
      (a b c : List String)
      → Grown max_terms pool a b
      → Grown max_terms pool b c
      → Grown max_terms pool a c
  Grown-trans a b c g h = record {
    added = g.added ++ h.added;
    behind = h.behind ∙ (ap (λ x. x ++ h.added) g.behind ∙ append_assoc a g.added h.added);
    known = rw (all_mem-append g.added h.added pool, g.known, h.known) refl;
    bounded = join_bounds g.bounded h.bounded;
  }
    where
      within :
          (g.added ≡ []) ⊎ (length b ≤ max_terms)
          → h.added ≡ []
          → (g.added ++ h.added ≡ []) ⊎ (length c ≤ max_terms)
      within (inl none) empty = inl (rw (none, empty) refl)
      within (inr fits) empty = inr (rw (h.behind, empty, append-nil b) fits)

      join_bounds :
          (g.added ≡ []) ⊎ (length b ≤ max_terms)
          → (h.added ≡ []) ⊎ (length c ≤ max_terms)
          → (g.added ++ h.added ≡ []) ⊎ (length c ≤ max_terms)
      join_bounds first (inl empty) = within first empty
      join_bounds first (inr fits) = inr fits

  length-one_more : (out : List String) (s : String) → length (out ++ s ∷ []) ≡ suc (length out)
  length-one_more [] s = refl
  length-one_more (x ∷ out) s = ap suc (length-one_more out s)

  room_for : (n : ℕ) → leb max_terms n ≡ false → suc n ≤ max_terms
  room_for n room = ground arith

  append_new-Grown :
      (out : List String) (s : String)
      → str_mem s pool ≡ true
      → leb max_terms (length out) ≡ false
      → Grown max_terms pool out (append_new out s)
  unfolding all_mem
  append_new-Grown out s mem room =
      if_both (Grown max_terms pool out) (str_mem s out) _ _ (Grown-refl out) (record {
        added = s ∷ [];
        behind = refl;
        known = rw mem refl;
        bounded = inr (rw (length-one_more out s) (room_for (length out) room));
      })

append_new-all_different :
    (out : List String) (s : String)
    → all_different out ≡ true
    → all_different (append_new out s) ≡ true
append_new-all_different out s h = ground (arith, all_different_snoc out s)

append_all-all_different :
    (ms out : List String) → all_different out ≡ true → all_different (append_all out ms) ≡ true
unfolding append_all
append_all-all_different [] out h = h
append_all-all_different (m ∷ ms) out h =
    append_all-all_different ms (append_new out m) (append_new-all_different out m h)

-- the terms that are not there yet come behind, each once
append_all-distinct : (ms out : List String) → append_all out ms ≡ out ++ outside out (distinct ms)
unfolding append_all outside distinct
append_all-distinct [] out = sym (append-nil out)
append_all-distinct (m ∷ ms) out =
    append_all-distinct ms (append_new out m) ∙ outside-distinct out m ms

module _ (lower : String → String) (synonyms : Dict (List String)) (max_key_len max_terms : ℕ) where
  -- the synonyms of some keys
  unfoldable pub synonyms_of : List String → List String
  synonyms_of [] = []
  synonyms_of (key ∷ keys) = bucket_of key synonyms ++ synonyms_of keys

  add_terms-Grown :
      (ss pool out : List String)
      → all_mem ss pool ≡ true
      → Grown max_terms pool out (add_terms lower synonyms max_key_len max_terms ss out).0
  unfolding add_terms all_mem
  add_terms-Grown [] pool out known = Grown-refl max_terms pool out
  add_terms-Grown (s ∷ ss) pool out known =
      let (first, rest) = &&-true (str_mem s pool) (all_mem ss pool) known in
      elim (Bool-cases (leb max_terms (length out))) [
        | inl full ↦ rw full (Grown-refl max_terms pool out)
        | inr room ↦ rw room (
            Grown-trans max_terms pool out (append_new out s) _
              (append_new-Grown max_terms pool out s first room)
              (add_terms-Grown ss pool (append_new out s) rest))
      ]

  scan_keys-Grown :
      (keys pool out : List String)
      → all_mem (synonyms_of keys) pool ≡ true
      → Grown max_terms pool out (scan_keys lower synonyms max_key_len max_terms keys out)
  unfolding scan_keys synonyms_of
  scan_keys-Grown [] pool out known = Grown-refl max_terms pool out
  scan_keys-Grown (key ∷ keys) pool out known =
      let bucket = bucket_of key synonyms in
      let (first, rest) =
        &&-true (all_mem bucket pool) (all_mem (synonyms_of keys) pool)
          (sym (all_mem-append bucket (synonyms_of keys) pool) ∙ known) in
      let step = add_terms-Grown bucket pool out first in
      if_both (Grown max_terms pool out) _ _ _
        (Grown-trans max_terms pool out _ _ step (scan_keys-Grown keys pool _ rest)) step

  add_terms-all_different :
      (ss out : List String)
      → all_different out ≡ true
      → all_different (add_terms lower synonyms max_key_len max_terms ss out).0 ≡ true
  unfolding add_terms
  add_terms-all_different [] out h = h
  add_terms-all_different (s ∷ ss) out h = elim (Bool-cases (leb max_terms (length out))) [
    | inl full ↦ rw full h
    | inr room ↦
        rw room (add_terms-all_different ss (append_new out s) (append_new-all_different out s h))
  ]

  scan_keys-all_different :
      (keys out : List String)
      → all_different out ≡ true
      → all_different (scan_keys lower synonyms max_key_len max_terms keys out) ≡ true
  unfolding scan_keys
  scan_keys-all_different [] out h = h
  scan_keys-all_different (key ∷ keys) out h =
      let step = add_terms-all_different (bucket_of key synonyms) out h in
      if_both (λ ys. all_different ys ≡ true) _ _ _ (scan_keys-all_different keys _ step) step

  -- The expander keeps the query: its answer is the terms of the query, each at its first place, with
  -- synonyms of the keys of the query behind them; no term is twice in it, and it has at most
  -- `max_terms` terms where any synonym was added. It does so for every synonym map.
  pub expander-Grown :
      (terms : List String)
      → Grown max_terms
          (synonyms_of (keys_of lower synonyms max_key_len max_terms terms))
          (distinct terms)
          (expander lower synonyms max_key_len max_terms terms)
        × (all_different (expander lower synonyms max_key_len max_terms terms) ≡ true)
  unfolding expander all_different
  expander-Grown terms =
      let keys = keys_of lower synonyms max_key_len max_terms terms in
      let start : append_all [] terms ≡ distinct terms =
        append_all-distinct terms [] ∙ outside_nothing (distinct terms) in
      (
        rw (sym start) (
            scan_keys-Grown keys (synonyms_of keys) (append_all [] terms)
              (all_mem_refl (synonyms_of keys))),
        scan_keys-all_different keys (append_all [] terms) (append_all-all_different terms [] refl),
      )
