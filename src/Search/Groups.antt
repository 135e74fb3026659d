-- ===== src/Search/Groups.antt =====
-- query_expansion.py: what `build_synonym_map` links.
use data_olympus.Base.{
  String, Bool, false, not, ◌&&◌, ◌||◌, List, [], ◌∷◌, ◌++◌, Dict, lookup, put, lookup-put, str_mem,
  str_eq-cases, if◌then◌else◌, ◌==◌, map, ◌≡◌, inl, inr, refl, subst, sym, ap, ◌∙◌, arith, eq_iff,
  eq_refl,
}
use data_olympus.Search.Synonyms.{
  append_new, append_all, without, bucket_of, or_none, fill_members, Groups, members_of, add_groups,
  build_synonym_map,
}

pub mem_snoc :
    (x m : String) (xs : List String) → str_mem x (xs ++ m ∷ []) ≡ (str_mem x xs || x == m)
mem_snoc x m [] = ground arith
mem_snoc x m (y ∷ ys) = ground (arith, mem_snoc x m ys)

mem-append_new :
    (x m : String) (out : List String) → str_mem x (append_new out m) ≡ (str_mem x out || x == m)
mem-append_new x m out = elim (str_eq-cases x m) [
  | inl same ↦
      subst (λ y. str_mem y (append_new out m) ≡ (str_mem y out || y == m)) (sym same)
        (ground (arith, mem_snoc m m out, eq_refl m))
  | inr (_, other) ↦ ground (arith, other, mem_snoc x m out)
]

mem-append_all :
    (x : String) (out ms : List String)
    → str_mem x (append_all out ms) ≡ (str_mem x out || str_mem x ms)
unfolding append_all
mem-append_all x out [] = ground arith
mem-append_all x out (m ∷ ms) =
    mem-append_all x (append_new out m) ms ∙ ground (arith, mem-append_new x m out)

mem-without :
    (x m : String) (xs : List String) → str_mem x (without m xs) ≡ (str_mem x xs && not (x == m))
unfolding without
mem-without x m [] = refl
mem-without x m (y ∷ ys) = ground (arith, mem-without x m ys, eq_iff x y, eq_iff y m, eq_iff x m)

-- the map links `a` to `b`
abbrev pub linked : String → String → Dict (List String) → Bool
linked a b m = str_mem b (bucket_of a m)

linked-put :
    (a b x : String) (bucket : List String) (m : Dict (List String))
    → linked a b (put x bucket m) ≡ (if x == a then str_mem b bucket else linked a b m)
linked-put a b x bucket m = ap (λ o. str_mem b (or_none o)) (lookup-put x a bucket m) ∙ ground arith

-- what a group links
abbrev pub in_group : List String → String → String → Bool
in_group ordered a b = str_mem a ordered && str_mem b ordered && not (b == a)

linked-fill_members :
    (a b : String) (ordered xs : List String) (m : Dict (List String))
    → linked a b (fill_members ordered xs m)
      ≡ (linked a b m || str_mem a xs && str_mem b ordered && not (b == a))
unfolding fill_members
linked-fill_members a b ordered [] m = ground arith
linked-fill_members a b ordered (x ∷ xs) m =
    linked-fill_members a b ordered xs _ ∙ elim (str_eq-cases a x) [
      | inl same ↦ first_case same
      | inr (_, other) ↦ ground (
        arith,
        other,
        linked-put a b x (append_all (bucket_of x m) (without x ordered)) m,
        eq_iff x a,
        eq_iff a x,
      )
    ]
  where
    links : String → Bool
    links c = linked c b (put x (append_all (bucket_of x m) (without x ordered)) m)

    first_case :
        a ≡ x
        → (links a || str_mem a xs && str_mem b ordered && not (b == a))
          ≡ (linked a b m || str_mem a (x ∷ xs) && str_mem b ordered && not (b == a))
    first_case same =
        subst
          (λ c.
            (links c || str_mem c xs && str_mem b ordered && not (b == c))
            ≡ (linked c b m || str_mem c (x ∷ xs) && str_mem b ordered && not (b == c)))
          (sym same)
          (ground (
            arith,
            eq_refl x,
            linked-put x b x (append_all (bucket_of x m) (without x ordered)) m,
            mem-append_all b (bucket_of x m) (without x ordered),
            mem-without b x ordered,
          ))

module _ (lower : String → String) where
  -- the words of a group: the canonical one and the variants, lower-cased
  abbrev pub words_of : String × List String → List String
  words_of (canonical, variants) = lower canonical ∷ map lower variants

  mem-members_of :
      (x : String) (g : String × List String)
      → str_mem x (members_of lower g) ≡ str_mem x (words_of g)
  unfolding members_of
  mem-members_of x (canonical, variants) =
      mem-append_all x [] (lower canonical ∷ map lower variants)

  -- some group has both, as two words
  unfoldable pub share_group : Groups → String → String → Bool
  share_group [] a b = false
  share_group (g ∷ gs) a b = let rest = share_group gs a b in in_group (words_of g) a b || rest

  linked-add_groups :
      (gs : Groups) (a b : String) (m : Dict (List String))
      → linked a b (add_groups lower gs m) ≡ (linked a b m || share_group gs a b)
  unfolding add_groups share_group
  linked-add_groups [] a b m = ground arith
  linked-add_groups (g ∷ gs) a b m =
      linked-add_groups gs a b _
      ∙ ground (
        arith,
        linked-fill_members a b (members_of lower g) (members_of lower g) m,
        mem-members_of a g,
        mem-members_of b g,
      )

  in_group_comm :
      (ordered : List String) (a b : String) → in_group ordered a b ≡ in_group ordered b a
  in_group_comm ordered a b = ground (arith, eq_iff a b, eq_iff b a)

  share_group_comm : (gs : Groups) (a b : String) → share_group gs a b ≡ share_group gs b a
  unfolding share_group
  share_group_comm [] a b = refl
  share_group_comm (g ∷ gs) a b =
      ground (arith, in_group_comm (words_of g) a b, share_group_comm gs a b)

  share_group_irrefl : (gs : Groups) (a : String) → share_group gs a a ≡ false
  unfolding share_group
  share_group_irrefl [] a = refl
  share_group_irrefl (g ∷ gs) a = ground (arith, eq_refl a, share_group_irrefl gs a)

  -- The synonym map is what the groups say: it links a word to another one exactly where some group
  -- has both of them, lower-cased, among its canonical word and its
  -- variants, and they differ; so the links go both ways, and no word
  -- is a synonym of itself.
  pub build_synonym_map-linked :
      (groups : Groups) (a b : String)
      → (linked a b (build_synonym_map lower groups) ≡ share_group groups a b)
        × (linked b a (build_synonym_map lower groups) ≡ share_group groups a b)
        × (linked a a (build_synonym_map lower groups) ≡ false)
  unfolding build_synonym_map lookup
  build_synonym_map-linked groups a b = (
    linked-add_groups groups a b [],
    linked-add_groups groups b a [] ∙ share_group_comm groups b a,
    linked-add_groups groups a a [] ∙ share_group_irrefl groups a,
  )
