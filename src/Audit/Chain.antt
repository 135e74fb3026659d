-- ===== src/Audit/Chain.antt =====
-- audit_log.py: `append` and `verify` along the chain, over rotations and restarts.
use data_olympus.Base.{
  ℕ, ◌+◌, String, Bool, true, false, Option, none, some, List, [], ◌∷◌, ◌++◌, lookup, ◌≡◌, refl, ap,
  ◌∙◌, subst, arith, eq_iff, eq_refl, Option-cases, ◌⊎◌, inl, inr,
}
use data_olympus.Audit.Log.{
  Json, text, number, other, Event, Line, blank, garbled, scalar, object, hash_of, is_text, last_of,
  check,
}

is_text-eq : (s : String) (o : Option Json) → is_text s o ≡ true → o ≡ some (text s)
is_text-eq s none h = cc
is_text-eq s (some (text t)) h = ap (λ x. some (text x)) ((eq_iff t s).0 h)
is_text-eq s (some (number n)) h = cc
is_text-eq s (some (other b t)) h = cc

module _ (own_hash : Event → String) where
  -- the hash that the next event has to name, in a chain that is intact
  unfoldable pub tail : String → List Line → String
  tail prev [] = prev
  tail prev (object ev ∷ ls) =
      let unhashed = tail prev ls in
      let linked = tail (own_hash ev) ls in elim (hash_of ev) [ none ↦ unhashed | some h ↦ linked ]
  tail prev (blank ∷ ls) = tail prev ls
  tail prev (garbled ∷ ls) = tail prev ls
  tail prev (scalar ∷ ls) = tail prev ls

  -- the event names `prev` and has its own hash
  pub record Linked (prev : String) (ev : Event) : Type 0 where
    pub named : lookup "prev_hash" ev ≡ some (text prev)
    pub hashed : hash_of ev ≡ some (text (own_hash ev))

  -- what an intact walk says of an event: it is unhashed and stands before the chain, or it is a
  -- link of the chain
  abbrev Before : Bool → String → ℕ → Event → List Line → Type 0
  Before seen prev i ev ls =
      (hash_of ev ≡ none) × (seen ≡ false) × (check own_hash seen prev (i + 1) ls ≡ none)

  abbrev pub Link : String → ℕ → Event → List Line → Type 0
  Link prev i ev ls =
      (hash_of ev ≡ some (text (own_hash ev)))
      × (lookup "prev_hash" ev ≡ some (text prev))
      × (check own_hash true (own_hash ev) (i + 1) ls ≡ none)

  pub check-object :
      (seen : Bool) (prev : String) (i : ℕ) (ev : Event) (ls : List Line)
      → check own_hash seen prev i (object ev ∷ ls) ≡ none
      → Before seen prev i ev ls ⊎ Link prev i ev ls
  unfolding check
  check-object seen prev i ev ls h = elim (Option-cases (hash_of ev)) [
    | inl unhashed ↦ inl (unhashed, ground (arith, unhashed), ground (arith, unhashed))
    | inr (j, is) ↦
        let named : is_text prev (lookup "prev_hash" ev) ≡ true = ground (arith, is) in
        let hashed : is_text (own_hash ev) (some j) ≡ true = ground (arith, is) in
        inr (
          is ∙ is_text-eq (own_hash ev) (some j) hashed,
          is_text-eq prev _ named,
          ground (arith, is),
        )
  ]

  pub check-snoc :
      (seen : Bool) (prev : String) (i : ℕ) (ls : List Line) (ev : Event)
      → check own_hash seen prev i ls ≡ none
      → Linked (tail prev ls) ev
      → check own_hash seen prev i (ls ++ object ev ∷ []) ≡ none
  unfolding check tail
  check-snoc seen prev i [] ev h l =
      ground (arith, l.named, l.hashed, eq_refl prev, eq_refl (own_hash ev))
  check-snoc seen prev i (blank ∷ ls) ev h l = check-snoc seen prev (i + 1) ls ev h l
  check-snoc seen prev i (garbled ∷ ls) ev h l = cc
  check-snoc seen prev i (scalar ∷ ls) ev h l =
      ground (arith, check-snoc seen prev (i + 1) ls ev, l)
  check-snoc seen prev i (object e ∷ ls) ev h l =
      by_event (check-object seen prev i e ls h) (check-snoc seen prev (i + 1) ls ev)
        (check-snoc true (own_hash e) (i + 1) ls ev) l
    where
      by_event :
          Before seen prev i e ls ⊎ Link prev i e ls
          → (check own_hash seen prev (i + 1) ls ≡ none
              → Linked (tail prev ls) ev
              → check own_hash seen prev (i + 1) (ls ++ object ev ∷ []) ≡ none)
          → (check own_hash true (own_hash e) (i + 1) ls ≡ none
              → Linked (tail (own_hash e) ls) ev
              → check own_hash true (own_hash e) (i + 1) (ls ++ object ev ∷ []) ≡ none)
          → Linked (tail prev (object e ∷ ls)) ev
          → check own_hash seen prev i (object e ∷ (ls ++ object ev ∷ [])) ≡ none
      by_event (inl (unhashed, first, rest)) go _ l =
          let l' = subst (λ p. Linked p ev) (rw (unhashed, tail) refl) l in
          ground (arith, unhashed, first, go rest l')
      by_event (inr (hashed, named, rest)) _ go l =
          let l' = subst (λ p. Linked p ev) (rw (hashed, tail) refl) l in
          ground (arith, hashed, named, eq_refl prev, eq_refl (own_hash e), go rest l')

  pub last_of-tail :
      (seen : Bool) (prev : String) (i : ℕ) (ls : List Line)
      → check own_hash seen prev i ls ≡ none
      → last_of (text prev) ls ≡ text (tail prev ls)
  unfolding check tail last_of
  last_of-tail seen prev i [] h = refl
  last_of-tail seen prev i (blank ∷ ls) h = last_of-tail seen prev (i + 1) ls h
  last_of-tail seen prev i (garbled ∷ ls) h = cc
  last_of-tail seen prev i (scalar ∷ ls) h = last_of-tail seen prev (i + 1) ls (ground arith)
  last_of-tail seen prev i (object e ∷ ls) h =
      by_event (check-object seen prev i e ls h) (last_of-tail seen prev (i + 1) ls)
        (last_of-tail true (own_hash e) (i + 1) ls)
    where
      by_event :
          Before seen prev i e ls ⊎ Link prev i e ls
          → (check own_hash seen prev (i + 1) ls ≡ none
              → last_of (text prev) ls ≡ text (tail prev ls))
          → (check own_hash true (own_hash e) (i + 1) ls ≡ none
              → last_of (text (own_hash e)) ls ≡ text (tail (own_hash e) ls))
          → last_of (text prev) (object e ∷ ls) ≡ text (tail prev (object e ∷ ls))
      by_event (inl (unhashed, first, rest)) go _ = rw (unhashed, last_of, tail) (go rest)
      by_event (inr (hashed, named, rest)) _ go = rw (hashed, last_of, tail) (go rest)

  pub tail-snoc :
      (prev : String) (ls : List Line) (ev : Event)
      → hash_of ev ≡ some (text (own_hash ev))
      → tail prev (ls ++ object ev ∷ []) ≡ own_hash ev
  unfolding tail
  tail-snoc prev [] ev h = rw (h, tail) refl
  tail-snoc prev (blank ∷ ls) ev h = tail-snoc prev ls ev h
  tail-snoc prev (garbled ∷ ls) ev h = tail-snoc prev ls ev h
  tail-snoc prev (scalar ∷ ls) ev h = tail-snoc prev ls ev h
  tail-snoc prev (object e ∷ ls) ev h =
      ground (arith, tail-snoc prev ls ev h, tail-snoc (own_hash e) ls ev h)
