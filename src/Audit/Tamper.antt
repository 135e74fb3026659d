-- ===== src/Audit/Tamper.antt =====
-- audit_log.py: what the last hash of an intact log determines.
use mathlib.Core.List.{append-nil}
use data_olympus.Base.{
  Dict, ℕ, ◌+◌, String, Bool, true, false, Option, none, some, List, [], ◌∷◌, ◌++◌, map, lookup,
  ◌≡◌, ◌≢◌, refl, sym, ap, ◌∙◌, arith, inl, inr,
}
use data_olympus.Audit.Log.{
  open_log, load_last_hash, text, Event, Line, blank, garbled, scalar, object, hash_of, all_lines,
  digest, canonical, own_hash, check, verify,
}
use data_olympus.Audit.Chain.{last_of-tail, tail, check-object}

text_inj : (s t : String) → text s ≡ text t → s ≡ t
text_inj s t h = cc

-- the hashed events, in order
unfoldable pub hashed : List Line → List Event
hashed [] = []
hashed (object ev ∷ ls) =
    let rest = hashed ls in elim (hash_of ev) [ none ↦ rest | some h ↦ ev ∷ rest ]
hashed (blank ∷ ls) = hashed ls
hashed (garbled ∷ ls) = hashed ls
hashed (scalar ∷ ls) = hashed ls

-- the first list, turned round, before the second
unfoldable pub reverse_onto {ℓ} : {A : Type ℓ} → List A → List A → List A
reverse_onto [] ys = ys
reverse_onto (x ∷ xs) ys = reverse_onto xs (x ∷ ys)

module _ (own : Event → String) where
  -- each event names the hash before it, the latest one first
  data Chained (genesis : String) : String → List Event → Type 0 where
    start : (h : String) → h ≡ genesis → Chained genesis h []
    link :
        (h p : String) (ev : Event) (evs : List Event)
        → h ≡ own ev
        → lookup "prev_hash" ev ≡ some (text p)
        → Chained genesis p evs
        → Chained genesis h (ev ∷ evs)

  check-Chained :
      (seen : Bool) (prev : String) (i : ℕ) (ls : List Line) (before : List Event)
      → check own seen prev i ls ≡ none
      → Chained "" prev before
      → Chained "" (tail own prev ls) (reverse_onto (hashed ls) before)
  unfolding check tail hashed reverse_onto
  check-Chained seen prev i [] before h c = c
  check-Chained seen prev i (blank ∷ ls) before h c = check-Chained seen prev (i + 1) ls before h c
  check-Chained seen prev i (garbled ∷ ls) before h c = cc
  check-Chained seen prev i (scalar ∷ ls) before h c =
      check-Chained seen prev (i + 1) ls before (ground arith) c
  check-Chained seen prev i (object ev ∷ ls) before h c =
      elim (check-object own seen prev i ev ls h) [
        | inl (unhashed, _, rest) ↦
            rw (unhashed, tail, hashed) (check-Chained seen prev (i + 1) ls before rest c)
        | inr (own_is, named, rest) ↦
            rw (own_is, tail, hashed)
              (check-Chained true (own ev) (i + 1) ls (ev ∷ before) rest
                (link (own ev) prev ev before refl named c))
      ]

reverse_onto-map {ℓ κ} :
    {A : Type ℓ} {B : Type κ} (f : A → B) (xs ys : List A)
    → map f (reverse_onto xs ys) ≡ reverse_onto (map f xs) (map f ys)
unfolding reverse_onto
reverse_onto-map f [] ys = refl
reverse_onto-map f (x ∷ xs) ys = reverse_onto-map f xs (x ∷ ys)

reverse_onto-reverse_onto {ℓ} :
    {A : Type ℓ} (xs ys zs : List A)
    → reverse_onto (reverse_onto xs ys) zs ≡ reverse_onto ys (xs ++ zs)
unfolding reverse_onto
reverse_onto-reverse_onto [] ys zs = refl
reverse_onto-reverse_onto (x ∷ xs) ys zs = reverse_onto-reverse_onto xs (x ∷ ys) zs

reverse_inj {ℓ} : {A : Type ℓ} (xs ys : List A) → reverse_onto xs [] ≡ reverse_onto ys [] → xs ≡ ys
unfolding reverse_onto
reverse_inj xs ys h =
    sym (append-nil xs)
    ∙ (sym (reverse_onto-reverse_onto xs [] [])
        ∙ (ap (λ t. reverse_onto t []) h ∙ (reverse_onto-reverse_onto ys [] [] ∙ append-nil ys)))

module _ (dumps : Event → String) (sha256 : String → String) (hmac : String → String → String)
    (hmac_key : String) (hex : (payload : String) → digest dumps sha256 hmac hmac_key payload ≢ "")
    (collision_free : (a b : String)
      → digest dumps sha256 hmac hmac_key a ≡ digest dumps sha256 hmac hmac_key b
      → a ≡ b)
    (dumps_prev : (a b : Event) (p q : String)
      → canonical dumps sha256 hmac hmac_key a ≡ canonical dumps sha256 hmac hmac_key b
      → lookup "prev_hash" a ≡ some (text p)
      → lookup "prev_hash" b ≡ some (text q)
      → p ≡ q) where
  abbrev own : Event → String
  own = own_hash dumps sha256 hmac hmac_key

  abbrev body : Event → String
  body = canonical dumps sha256 hmac hmac_key

  Chained-unique :
      (h h' : String) (xs ys : List Event)
      → Chained own "" h xs
      → Chained own "" h' ys
      → h ≡ h'
      → map body xs ≡ map body ys
  unfolding own_hash
  Chained-unique _ _ _ _ (start h is) (start h' is') same = refl
  Chained-unique _ _ _ _ (start h is) (link h' p ev evs is' named c) same =
      absurd (hex (body ev) (cc))
  Chained-unique _ _ _ _ (link h p ev evs is named c) (start h' is') same =
      absurd (hex (body ev) (cc))
  Chained-unique _ _ _ _ (link h p ev evs is named c) (link h' q ev' evs' is' named' c') same =
      let bodies = collision_free (body ev) (body ev') (cc) in
      let rest = Chained-unique p q evs evs' c c' (dumps_prev ev ev' p q bodies named named') in
      cc (bodies, rest)

  -- The last hash determines the history: two logs that verify and have one last hash hold the same
  -- hashed events in the same order, by their bodies as they are digested. Digests are not empty and
  -- do not collide, and the text of a body determines its `prev_hash`.
  pub verify_unique :
      (r r' : Dict (List Line)) (live live' : Option (List Line))
      → verify dumps sha256 hmac hmac_key (open_log r live) ≡ none
      → verify dumps sha256 hmac hmac_key (open_log r' live') ≡ none
      → load_last_hash r live ≡ load_last_hash r' live'
      → map body (hashed (all_lines r live)) ≡ map body (hashed (all_lines r' live'))
  unfolding verify open_log load_last_hash
  verify_unique r r' live live' v v' same = reverse_inj _ _ (
      sym (reverse_onto-map body (hashed (all_lines r live)) [])
      ∙ (Chained-unique _ _ _ _
            (check-Chained own false "" 0 (all_lines r live) [] v (start "" refl))
            (check-Chained own false "" 0 (all_lines r' live') [] v' (start "" refl)) tails
          ∙ reverse_onto-map body (hashed (all_lines r' live')) []))
    where
      tails : tail own "" (all_lines r live) ≡ tail own "" (all_lines r' live')
      tails = text_inj _ _ (
          sym (last_of-tail own false "" 0 (all_lines r live) v)
          ∙ (same ∙ last_of-tail own false "" 0 (all_lines r' live') v'))
