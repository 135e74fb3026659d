-- ===== src/Search/Synonyms.antt =====
-- query_expansion.py: `build_synonym_map` and the closure of `make_synonym_expander`. `str.lower` and
-- the number of words of a key are arguments.
use Prim.Native.String.{◌++◌ as str_append}
use data_olympus.Base.{
  ℕ, zero, suc, ◌-◌, String, Bool, true, false, Option, none, some, List, [], ◌∷◌, ◌++◌, Dict,
  lookup, put, str_mem, length, map, leb, if◌then◌else◌, ◌==◌,
}

abbrev pub append_new : List String → String → List String
append_new out m = if str_mem m out then out else out ++ m ∷ []

-- the members that are not there yet come last, in order
unfoldable pub append_all : List String → List String → List String
append_all out [] = out
append_all out (m ∷ ms) = append_all (append_new out m) ms

unfoldable pub without : String → List String → List String
without m [] = []
without m (x ∷ xs) = let rest = without m xs in if x == m then rest else x ∷ rest

abbrev pub or_none : Option (List String) → List String
or_none none = []
or_none (some bucket) = bucket

-- `lookup.get(key, ())`
abbrev pub bucket_of : String → Dict (List String) → List String
bucket_of key m = or_none (lookup key m)

-- every member of the group gets all the others
unfoldable pub fill_members : List String → List String → Dict (List String) → Dict (List String)
fill_members ordered [] m = m
fill_members ordered (x ∷ xs) m =
    fill_members ordered xs (put x (append_all (bucket_of x m) (without x ordered)) m)

abbrev pub Groups : Type 0
Groups = List (String × List String)

-- `" ".join`
unfoldable pub join : List String → String
join [] = ""
join (w ∷ []) = w
join (w ∷ v ∷ ws) = str_append w (str_append " " (join (v ∷ ws)))

unfoldable pub take : ℕ → List String → List String
take zero ws = []
take (suc n) [] = []
take (suc n) (w ∷ ws) = w ∷ take n ws

-- the adjacent words, `size` of them at a time
unfoldable pub windows : ℕ → List String → List String
windows size [] = []
windows size (w ∷ ws) =
    let rest = windows size ws in
    if leb size (length (w ∷ ws)) then join (take size (w ∷ ws)) ∷ rest else []

-- the windows of `count` sizes, from `size` on
unfoldable pub all_windows : ℕ → ℕ → List String → List String
all_windows zero size ws = []
all_windows (suc count) size ws = windows size ws ++ all_windows count (suc size) ws

module _ (lower : String → String) where
  unfoldable pub members_of : String × List String → List String
  members_of (canonical, variants) = append_all [] (lower canonical ∷ map lower variants)

  unfoldable pub add_groups : Groups → Dict (List String) → Dict (List String)
  add_groups [] m = m
  add_groups (g ∷ gs) m = add_groups gs (fill_members (members_of g) (members_of g) m)

  unfoldable pub build_synonym_map : Groups → Dict (List String)
  build_synonym_map groups = add_groups groups []

  module _ (synonyms : Dict (List String)) (max_key_len max_terms : ℕ) where
    -- the terms so far, and whether the scan goes on
    unfoldable pub add_terms : List String → List String → List String × Bool
    add_terms [] out = (out, true)
    add_terms (s ∷ ss) out =
        let rest = add_terms ss (append_new out s) in
        if leb max_terms (length out) then (out, false) else rest

    unfoldable pub scan_keys : List String → List String → List String
    scan_keys [] out = out
    scan_keys (key ∷ keys) out =
        let (out', goes_on) = add_terms (bucket_of key synonyms) out in
        let rest = scan_keys keys out' in if goes_on then rest else out'

    -- the single words, then their windows where some key has more than one word
    unfoldable pub keys_of : List String → List String
    keys_of terms = map lower terms ++ all_windows (max_key_len - 1) 2 (map lower terms)

    unfoldable pub expander : List String → List String
    expander terms = scan_keys (keys_of terms) (append_all [] terms)
