-- ===== src/Tests/Gate.antt =====
-- Runs of the compare-and-swap check (write_gate.py).
use data_olympus.Base.{String, Bool, true, false, Option, none, some, ◌≡◌, ◌≢◌, refl, inr, eq_iff}
use data_olympus.Gate.Cas.{
  check_cas, check_file_hash, check_commit, is_enforceable_base_commit, current_blob,
}
use data_olympus.Pending.Queue.{strip}
use data_olympus.Gate.Stale.{is_ok, agrees, check_cas-agrees, check_cas-current}

abbrev id : String → String
id s = s

abbrev exists : String → Bool
exists c = true

-- the one blob that git has
abbrev blob_at : String → String → String
blob_at c p = "text"

false-true : false ≢ true
false-true h = cc

abbrev read : String
read = "text"

abbrev current : Option String
current = some "text"

abbrev none_there : String
none_there = ""

there : read ≢ none_there
there h = false-true ((eq_iff read none_there).1 h)

check_cas-agrees_example :
    is_ok (check_cas id id exists blob_at (some "new") "a.md" (some "head") (some "text") none)
    ≡ agrees id id exists blob_at (some "new") "a.md" (some "head") (some "text") none
check_cas-agrees_example =
    check_cas-agrees id id exists blob_at (some "new") "a.md" (some "head") (some "text") none

passed : check_cas id id exists blob_at (some "text") "a.md" (some "c1") none none ≡ none
unfolding check_cas check_file_hash check_commit is_enforceable_base_commit current_blob strip
passed = refl

enforced : is_enforceable_base_commit (some "c1") ≡ true
unfolding is_enforceable_base_commit strip
enforced = refl

no_collision : (c : String) → current ≡ some c → id c ≡ id read → c ≡ read
no_collision c is same = same

check_cas-current_example : current ≡ some read
check_cas-current_example =
    check_cas-current id id exists blob_at current "a.md" (some "c1") none none read there
      no_collision (inr (enforced, refl)) passed
