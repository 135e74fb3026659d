-- ===== src/Access/Canonical.antt =====
-- auth.py: the canonical form of a target path.
use Prim.Native.Char.{Char, code}
use Prim.Native.String.{[], ◌∷◌}
use data_olympus.Base.{
  String, true, false, some, List, ◌≡◌, refl, sym, ap, ◌∙◌, arith, eq_iff, Bool-cases, inl, inr,
}
use data_olympus.Pending.Queue.{is_space}
use data_olympus.Access.Paths.{
  is_char, slash, is_blank, is_control, has_control, is_absolute, has_drive, fold_char,
  fold_slashes, put_char, split, glue, join_parts, any_bad, normalize_target_path,
}

char_is : (c d : Char) → is_char c (d ∷ []) ≡ true → c ≡ d
char_is c d h = char_inj ((eq_iff (c ∷ []) (d ∷ [])).0 h)
  where
    char_inj : (c ∷ []) ≡ (d ∷ []) → c ≡ d
    char_inj e = cc

is_space-fold_char : (c : Char) → is_space (code (fold_char c)) ≡ is_space (code c)
unfolding is_space
is_space-fold_char c = elim (Bool-cases (is_char c "\\")) [
  | inl is ↦ rw (char_is c "\\" is) refl
  | inr differs ↦ rw differs refl
]

is_control-fold_char : (c : Char) → is_control (fold_char c) ≡ is_control c
is_control-fold_char c = elim (Bool-cases (is_char c "\\")) [
  | inl is ↦ rw (char_is c "\\" is) refl
  | inr differs ↦ rw differs refl
]

colon-fold_char : (c : Char) → is_char (fold_char c) ":" ≡ is_char c ":"
colon-fold_char c = elim (Bool-cases (is_char c "\\")) [
  | inl is ↦ rw (char_is c "\\" is) refl
  | inr differs ↦ rw differs refl
]

fold_char-fold_char : (c : Char) → fold_char (fold_char c) ≡ fold_char c
fold_char-fold_char c = elim (Bool-cases (is_char c "\\")) [
  | inl is ↦ rw (char_is c "\\" is) refl
  | inr differs ↦ rw (differs, differs) refl
]

is_blank-fold_slashes : (s : String) → is_blank (fold_slashes s) ≡ is_blank s
unfolding is_blank fold_slashes
is_blank-fold_slashes [] = refl
is_blank-fold_slashes (c ∷ s) = rw (is_space-fold_char c, is_blank-fold_slashes s) refl

has_control-fold_slashes : (s : String) → has_control (fold_slashes s) ≡ has_control s
unfolding has_control fold_slashes
has_control-fold_slashes [] = refl
has_control-fold_slashes (c ∷ s) = rw (is_control-fold_char c, has_control-fold_slashes s) refl

has_drive-fold_slashes : (s : String) → has_drive (fold_slashes s) ≡ has_drive s
unfolding fold_slashes
has_drive-fold_slashes [] = refl
has_drive-fold_slashes (c ∷ []) = refl
has_drive-fold_slashes (c ∷ d ∷ s) = colon-fold_char d

fold_slashes-fold_slashes : (s : String) → fold_slashes (fold_slashes s) ≡ fold_slashes s
unfolding fold_slashes
fold_slashes-fold_slashes [] = refl
fold_slashes-fold_slashes (c ∷ s) = rw (fold_char-fold_char c, fold_slashes-fold_slashes s) refl

-- a split has a first part
IsNonempty : List String → Type 0
IsNonempty ps = (p : String) × (qs : List String) × (ps ≡ List.◌∷◌ p qs)

put_char-IsNonempty : (c : Char) (ps : List String) → IsNonempty (put_char c ps)
unfolding IsNonempty
put_char-IsNonempty c List.[] = (c ∷ [], List.[], refl)
put_char-IsNonempty c (List.◌∷◌ p ps) = (c ∷ p, ps, refl)

split-IsNonempty : (s : String) → IsNonempty (split s)
unfolding split IsNonempty
split-IsNonempty [] = ([], List.[], refl)
split-IsNonempty (c ∷ s) = elim (Bool-cases (is_char c "/")) [
  | inl is ↦ ([], split s, rw is refl)
  | inr differs ↦ let (p, ps, e) = put_char-IsNonempty c (split s) in (p, ps, rw differs e)
]

join_parts-empty :
    (ps : List String) → IsNonempty ps → join_parts (List.◌∷◌ [] ps) ≡ slash ∷ join_parts ps
unfolding join_parts glue IsNonempty
join_parts-empty ps (p, qs, e) = rw e refl

join_parts-put_char :
    (c : Char) (ps : List String) → IsNonempty ps → join_parts (put_char c ps) ≡ c ∷ join_parts ps
unfolding join_parts glue IsNonempty
join_parts-put_char c List.[] (p, qs, e) = cc
join_parts-put_char c (List.◌∷◌ p List.[]) h = refl
join_parts-put_char c (List.◌∷◌ p (List.◌∷◌ q ps)) h = refl

join_parts-split : (s : String) → join_parts (split s) ≡ s
unfolding split join_parts
join_parts-split [] = refl
join_parts-split (c ∷ s) = elim (Bool-cases (is_char c "/")) [
  | inl is ↦ rw is (
      join_parts-empty (split s) (split-IsNonempty s)
      ∙ (ap (λ t. slash ∷ t) (join_parts-split s) ∙ ap (λ d. d ∷ s) (sym (char_is c "/" is))))
  | inr differs ↦
      rw differs (
        join_parts-put_char c (split s) (split-IsNonempty s) ∙ ap (λ t. c ∷ t) (join_parts-split s))
]

-- an absolute text has an empty first part
any_bad-absolute : (s : String) → any_bad (split s) ≡ false → is_absolute s ≡ false
unfolding any_bad split
any_bad-absolute [] h = refl
any_bad-absolute (c ∷ s) h = elim (Bool-cases (is_char c "/")) [
  | inl is ↦ cc (rw is at h)
  | inr differs ↦ differs
]

-- what the normalization of a path has checked
normalize-checks :
    (raw q : String)
    → normalize_target_path raw ≡ some q
    → (is_blank raw ≡ false)
      × (has_control raw ≡ false)
      × (has_drive raw ≡ false)
      × (any_bad (split (fold_slashes raw)) ≡ false)
      × (q ≡ fold_slashes raw)
unfolding normalize_target_path
normalize-checks raw q h = (
  ground (arith, h),
  ground (arith, h),
  ground (arith, h),
  ground (arith, h),
  ground (arith, h, join_parts-split (fold_slashes raw)),
)

normalize-intro :
    (s : String)
    → is_blank s ≡ false
    → has_control s ≡ false
    → is_absolute s ≡ false
    → has_drive s ≡ false
    → any_bad (split (fold_slashes s)) ≡ false
    → fold_slashes s ≡ s
    → normalize_target_path s ≡ some s
unfolding normalize_target_path
normalize-intro s blank control absolute drive parts same = ground (arith, join_parts-split s)

-- A path that `normalize_target_path` answers is canonical: it is its own normal form, no part of it
-- is empty, `.`, `..` or excluded, it is not absolute, and it has no control character (below 0x20,
-- or 0x7F) and no backslash.
pub normalize_target_path_canonical :
    (raw q : String)
    → normalize_target_path raw ≡ some q
    → (normalize_target_path q ≡ some q)
      × (any_bad (split q) ≡ false)
      × (is_absolute q ≡ false)
      × (has_control q ≡ false)
      × (fold_slashes q ≡ q)
normalize_target_path_canonical raw q h =
    let (blank, control, drive, parts, is) = normalize-checks raw q h in
    let same = fold_slashes-fold_slashes raw in
    let absolute = any_bad-absolute (fold_slashes raw) parts in
    let no_control = has_control-fold_slashes raw ∙ control in
    let again =
      normalize-intro (fold_slashes raw) (is_blank-fold_slashes raw ∙ blank) no_control absolute
        (has_drive-fold_slashes raw ∙ drive) (ap (λ s. any_bad (split s)) same ∙ parts) same in
    rw is (again, parts, absolute, no_control, same)
