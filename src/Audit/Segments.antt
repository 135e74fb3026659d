-- ===== src/Audit/Segments.antt =====
-- audit_log.py: the order of the segments, where a new segment has the latest name.
use Prim.Native.String.{compare}
use text.Mathlib.Text.{is_lt}
use mathlib.Core.List.{append_assoc, append-nil}
use data_olympus.Base.{
  String, false, Option, none, some, List, [], ◌∷◌, ◌++◌, Dict, lookup, put, keys, ◌≡◌, refl, sym,
  ap, ◌∙◌, arith, eq_iff, lookup-put, lookup-put_self, ◌==◌, Bool-cases, inl, inr,
}
use data_olympus.Pending.Reconcile.{insert_name, sort_names}
use data_olympus.Audit.Log.{Line, lines_of, segments, all_lines}

-- the name is new, and comes after all of these
abbrev pub Latest : String → List String → Type 0
Latest n [] = Unit
Latest n (k ∷ ks) = ((k == n) ≡ false) × (is_lt (compare n k) ≡ false) × Latest n ks

insert_name-last :
    (n x : String) (ys : List String)
    → is_lt (compare n x) ≡ false
    → insert_name x (ys ++ n ∷ []) ≡ insert_name x ys ++ n ∷ []
unfolding insert_name
insert_name-last n x [] h = ground (arith, h)
insert_name-last n x (y ∷ ys) h = elim (Bool-cases (is_lt (compare y x))) [
  | inl before ↦ rw before (ap (◌∷◌ y) (insert_name-last n x ys h))
  | inr after ↦ rw after refl
]

sort_names-last :
    (n : String) (ks : List String)
    → Latest n ks
    → sort_names (ks ++ n ∷ []) ≡ sort_names ks ++ n ∷ []
unfolding sort_names insert_name
sort_names-last n [] h = refl
sort_names-last n (k ∷ ks) (_, before, h) =
    ap (insert_name k) (sort_names-last n ks h) ∙ insert_name-last n k (sort_names ks) before

keys-put :
    (n : String) (ls : List Line) (r : Dict (List Line))
    → Latest n (keys r)
    → keys (put n ls r) ≡ keys r ++ n ∷ []
unfolding put
keys-put n ls [] h = refl
keys-put n ls ((k, v) ∷ r) (new, _, h) = rw new (ap (◌∷◌ k) (keys-put n ls r h))

-- none of the names is `n`
abbrev Others : String → List String → Type 0
Others n [] = Unit
Others n (k ∷ ks) = ((k == n) ≡ false) × Others n ks

insert_name-Others :
    (n x : String) (ys : List String) → (x == n) ≡ false → Others n ys → Others n (insert_name x ys)
unfolding insert_name
insert_name-Others n x [] h o = (h, tt)
insert_name-Others n x (y ∷ ys) h (o, os) = elim (Bool-cases (is_lt (compare y x))) [
  | inl before ↦ rw before (o, insert_name-Others n x ys h os)
  | inr after ↦ rw after (h, (o, os))
]

sort_names-Others : (n : String) (ks : List String) → Latest n ks → Others n (sort_names ks)
unfolding sort_names
sort_names-Others n [] h = tt
sort_names-Others n (k ∷ ks) (new, _, h) =
    insert_name-Others n k (sort_names ks) new (sort_names-Others n ks h)

flipped : (k n : String) → (k == n) ≡ false → (n == k) ≡ false
flipped k n h = elim (Bool-cases (n == k)) [
  | inl same ↦ let bad : ⊥ = ground (arith, same, h, eq_iff k n, eq_iff n k) in absurd bad
  | inr other ↦ other
]

segments-put :
    (n : String) (ls : List Line) (ks : List String) (r : Dict (List Line))
    → Others n ks
    → segments ks (put n ls r) ≡ segments ks r
unfolding segments
segments-put n ls [] r h = refl
segments-put n ls (k ∷ ks) r (new, h) =
    let same : lookup k (put n ls r) ≡ lookup k r =
      ground (arith, lookup-put n k ls r, flipped k n new) in
    rw same (ap (λ t. lines_of (lookup k r) ++ t) (segments-put n ls ks r h))

segments-last :
    (ks : List String) (n : String) (r : Dict (List Line))
    → segments (ks ++ n ∷ []) r ≡ segments ks r ++ lines_of (lookup n r)
unfolding segments
segments-last [] n r = append-nil (lines_of (lookup n r))
segments-last (k ∷ ks) n r =
    ap (λ t. lines_of (lookup k r) ++ t) (segments-last ks n r)
    ∙ sym (append_assoc (lines_of (lookup k r)) (segments ks r) (lines_of (lookup n r)))

-- A rotation to the latest name moves no line.
pub all_lines-rotate :
    (n : String) (ls : List Line) (r : Dict (List Line))
    → Latest n (keys r)
    → all_lines (put n ls r) none ≡ all_lines r (some ls)
unfolding all_lines
all_lines-rotate n ls r h =
    append-nil (segments (sort_names (keys (put n ls r))) (put n ls r))
    ∙ ap (λ ks. segments (sort_names ks) (put n ls r)) (keys-put n ls r h)
    ∙ ap (λ ks. segments ks (put n ls r)) (sort_names-last n (keys r) h)
    ∙ segments-last (sort_names (keys r)) n (put n ls r)
    ∙ ap (λ f. segments (sort_names (keys r)) (put n ls r) ++ lines_of f) (lookup-put_self n ls r)
    ∙ ap (λ t. t ++ ls) (segments-put n ls (sort_names (keys r)) r (sort_names-Others n (keys r) h))

pub all_lines-snoc :
    (r : Dict (List Line)) (live : Option (List Line)) (l : Line)
    → all_lines r (some (lines_of live ++ l ∷ [])) ≡ all_lines r live ++ l ∷ []
unfolding all_lines
all_lines-snoc r live l =
    sym (append_assoc (segments (sort_names (keys r)) r) (lines_of live) (l ∷ []))
