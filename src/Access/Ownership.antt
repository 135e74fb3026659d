-- ===== src/Access/Ownership.antt =====
-- principals.py: the names of the principals of a built registry, and the principal of a caller.
use data_olympus.Base.{
  eq_refl, subst, String, Bool, true, false, Option, none, some, List, [], ◌∷◌, str_mem, ◌≡◌, ◌⊎◌,
  inl, inr, refl, arith, ◌==◌, if◌then◌else◌, Bool-cases, eq_iff,
}
use data_olympus.Pending.Queue.{strip}
use data_olympus.Access.Registry.{
  Principal, Spec, Registry, operator, anonymous, name_of, principal_of, with_first, register,
  build, find_token, by_bearer, resolve, extract_bearer,
}

abbrev pub names : Registry → List String
names [] = []
names ((t, p) ∷ r) = p.name ∷ names r

abbrev pub Distinct : List String → Type 0
Distinct [] = Unit
Distinct (n ∷ ns) = (str_mem n ns ≡ false) × Distinct ns

-- none of the names is in the list
abbrev Avoids : List String → List String → Type 0
Avoids seen ns = (n : String) → str_mem n seen ≡ true → str_mem n ns ≡ false

abbrev Sound : List String → Option Registry → Type 0
Sound seen none = Unit
Sound seen (some r) = Distinct (names r) × Avoids seen (names r)

with_first-Sound :
    (seen : List String) (t : String) (p : Principal) (o : Option Registry)
    → str_mem p.name seen ≡ false
    → Sound (p.name ∷ seen) o
    → Sound seen (with_first (t, p) o)
with_first-Sound seen t p none new h = tt
with_first-Sound seen t p (some r) new (distinct, avoids) = (
  (avoids p.name (ground (arith, eq_refl p.name)), distinct),
  λ n there. elim (Bool-cases (n == p.name)) [
    | inl same ↦
        let here : str_mem p.name seen ≡ true =
          subst (λ x. str_mem x seen ≡ true) ((eq_iff n p.name).0 same) there in
        let bad : ⊥ = ground (arith, here, new) in absurd bad
    | inr other ↦ ground (arith, other, avoids n (ground (arith, other, there)))
  ],
)

register-Sound : (specs : List Spec) (seen : List String) → Sound seen (register specs seen)
unfolding register
register-Sound [] seen = (tt, λ n there. refl)
register-Sound (s ∷ specs) seen =
    by_tests (strip s.token == "") (str_mem (name_of s) seen) refl (register specs seen)
      (register specs (name_of s ∷ seen)) (register-Sound specs seen)
      (register-Sound specs (name_of s ∷ seen))
  where
    by_tests :
        (blank taken : Bool)
        → str_mem (name_of s) seen ≡ taken
        → (skipped rest : Option Registry) → Sound seen skipped
        → Sound (name_of s ∷ seen) rest
        → Sound seen (
            if blank
            then skipped
            else if taken
            then none
            else with_first (strip s.token, principal_of s) rest)
    by_tests true taken is skipped rest h h' = h
    by_tests false true is skipped rest h h' = tt
    by_tests false false is skipped rest h h' =
        with_first-Sound seen (strip s.token) (principal_of s) rest is h'

Distinct-of :
    (o : Option Registry) (r : Registry) (seen : List String)
    → o ≡ some r
    → Sound seen o
    → Distinct (names r)
Distinct-of o r seen is h = (subst (λ x. Sound seen x) is h).0

-- A registry that is built has no two principals of one name, the operator's included.
pub build-Distinct :
    (auth_token : String) (specs : List Spec) (r : Registry)
    → build auth_token specs ≡ some r
    → Distinct (names r)
unfolding build
build-Distinct auth_token specs r is = Distinct-of _ r [] is (by_token (auth_token == ""))
  where
    by_token :
        (b : Bool)
        → Sound [] (
            if b
            then register specs []
            else with_first (auth_token, operator) (register specs ("operator" ∷ [])))
    by_token true = register-Sound specs []
    by_token false =
        with_first-Sound [] auth_token operator _ refl (register-Sound specs ("operator" ∷ []))

-- the principal is in the registry under the token
abbrev pub Registered : String → Principal → Registry → Type 0
Registered token p [] = ⊥
Registered token p ((known, q) ∷ r) = ((token ≡ known) × (q ≡ p)) ⊎ Registered token p r

-- What the principal of a caller rests on: no token of the registry was borne and it is anonymous, or
-- it is registered under the token that was borne.
abbrev pub Grounded : Option String → Principal → Registry → Type 0
Grounded none p r = p ≡ anonymous
Grounded (some token) p r =
    ((p ≡ anonymous) × ((q : Principal) → Registered token q r → ⊥)) ⊎ Registered token p r

find_token-Grounded : (token : String) (r : Registry) → Grounded (some token) (find_token token r) r
unfolding find_token
find_token-Grounded token [] = inl (refl, λ q there. there)
find_token-Grounded token ((known, p) ∷ r) =
    by_test (token == known) refl (find_token token r) (find_token-Grounded token r)
  where
    by_test :
        (b : Bool)
        → (token == known) ≡ b
        → (rest : Principal) → Grounded (some token) rest r
        → Grounded (some token) (if b then p else rest) ((known, p) ∷ r)
    by_test true is rest h = inr (inl ((eq_iff token known).0 is, refl))
    by_test false is rest (inr there) = inr (inr there)
    by_test false is rest (inl (anon, nowhere)) = inl (
      anon,
      λ q there. elim there [
        | inl (same, _) ↦ let bad : ⊥ = ground (arith, is, eq_iff token known, same) in absurd bad
        | inr later ↦ nowhere q later
      ],
    )

by_bearer-Grounded : (o : Option String) (r : Registry) → Grounded o (by_bearer o r) r
by_bearer-Grounded none r = refl
by_bearer-Grounded (some token) r = find_token-Grounded token r

-- Where authentication is configured, a caller is a registered principal only by its token: without
-- a bearer token it is anonymous, with a token that no principal has it is anonymous, and with any
-- other token it is a principal registered under that token.
pub resolve-Grounded :
    (e : String × Principal) (r : Registry) (auth_header : Option String)
    → Grounded (extract_bearer auth_header) (resolve (e ∷ r) auth_header) (e ∷ r)
unfolding resolve
resolve-Grounded e r auth_header = by_bearer-Grounded (extract_bearer auth_header) (e ∷ r)
