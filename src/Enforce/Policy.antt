-- ===== src/Enforce/Policy.antt =====
-- enforce_policy.py: `IntentClassifier` and the coverage of an action's signals. The regular
-- expression search for a keyword, `fnmatch`, `in` on strings, `str.lower`, `str.strip`, the
-- backslashes of a path, its last part, and the tokens of an intent are arguments.
use Prim.Native.String.{◌++◌ as str_append, slice, len}
use package.text.Mathlib.Text.{starts_with}
use data_olympus.Base.{
  String, Bool, true, false, not, ◌||◌, Option, none, some, List, [], ◌∷◌, ◌++◌, map, Dict, lookup,
  str_mem, if◌then◌else◌, ◌==◌,
}

-- `f"{fam}:{name}"`
abbrev pub keyword_signal : String → String
keyword_signal kw = str_append "keyword:" kw

abbrev pub path_signal_of : String → String
path_signal_of glob = str_append "path:" glob

-- one leading `*/` of a path signal is removed
unfoldable pub signal_family : String → String
signal_family signal =
    if starts_with "path:*/" signal
    then str_append "path:" (slice signal 7 (len signal))
    else signal

abbrev pub dependency_keywords : List String
dependency_keywords = "dependency" ∷ "dependencies" ∷ "package" ∷ "library" ∷ []

abbrev pub migration_keywords : List String
migration_keywords = "migration" ∷ "migrate" ∷ "schema" ∷ []

abbrev pub schema_keywords : List String
schema_keywords = "schema" ∷ "migration" ∷ "migrate" ∷ []

abbrev pub command_signal : (String → String) → String → String
command_signal strip pattern = str_append "command:" (strip pattern)

abbrev pub governed_command_patterns : List String
governed_command_patterns =
    "pip install" ∷ "pip3 install" ∷ "uv add" ∷ "uv pip install" ∷ "poetry add" ∷ "npm install"
    ∷ "npm i " ∷ "yarn add" ∷ "pnpm add" ∷ "apt install" ∷ "apt-get install" ∷ "brew install"
    ∷ "go get" ∷ "cargo add" ∷ "gem install" ∷ "bundle add" ∷ []

abbrev for_all : List String → List String → Dict (List String)
for_all [] keywords = []
for_all (k ∷ ks) keywords = (k, keywords) ∷ for_all ks keywords

-- `SIGNAL_FAMILY_COVERAGE`
abbrev pub signal_family_coverage : (String → String) → Dict (List String)
signal_family_coverage strip =
    for_all
      ("path:pyproject.toml" ∷ "path:package.json" ∷ "path:requirements*.txt" ∷ "path:go.mod"
        ∷ "path:Cargo.toml" ∷ "path:pom.xml" ∷ [])
      dependency_keywords
    ++ for_all (map (command_signal strip) governed_command_patterns) dependency_keywords
    ++ ("path:migrations/*", migration_keywords)
      ∷ ("path:migration/*", migration_keywords)
      ∷ ("path:schema/*", schema_keywords)
      ∷ ("path:schema.sql", schema_keywords)
      ∷ ("path:*.sql", schema_keywords)
      ∷ []

abbrev pub keywords_of : Option (List String) → List String
keywords_of none = []
keywords_of (some kws) = kws

-- one of the keywords is in the coverage
abbrev pub any_keyword : List String → List String → Bool
any_keyword [] families = false
any_keyword (kw ∷ kws) families =
    let rest = any_keyword kws families in
    if str_mem (keyword_signal kw) families then true else rest

-- a signal that the families of a coverage clear
unfoldable pub clears : Dict (List String) → List String → String → Bool
unfolding any_keyword keywords_of
clears table families sig =
    let fam = signal_family sig in
    if str_mem fam families then true else any_keyword (keywords_of (lookup fam table)) families

unfoldable pub uncovered : Dict (List String) → List String → List String → List String
uncovered table families [] = []
uncovered table families (sig ∷ sigs) =
    let rest = uncovered table families sigs in
    if clears table families sig then rest else sig ∷ rest

unfoldable pub uncovered_signals : Dict (List String) → List String → List String → List String
uncovered_signals table signals coverage = uncovered table (map signal_family coverage) signals

-- What the classifier calls on texts: `lower`, `strip`, the search for a whole word, `in`,
-- `fnmatch`, the path with slashes and its last part, and for the tokens of an intent the split at
-- the delimiters, `rstrip` of the punctuation and the quoted spans.
pub record Texts : Type 0 where
  pub lower : String → String
  pub strip : String → String
  pub has_word : String → String → Bool
  pub contains : String → String → Bool
  pub fnmatch : String → String → Bool
  pub slashed : String → String
  pub base_name : String → String
  pub split : String → List String
  pub rstrip : String → String
  pub quoted : String → List String

pub record Classifier : Type 0 where
  pub keywords : List String
  pub path_globs : List String
  pub command_patterns : List String

-- `IntentClassifier(...)`
unfoldable pub classifier_of : Texts → List String → List String → List String → Classifier
classifier_of x keywords path_globs command_patterns = record {
  keywords = map x.lower keywords;
  path_globs = path_globs;
  command_patterns = map x.lower command_patterns;
}

abbrev pub nonempty : List String → List String
nonempty [] = []
nonempty (s ∷ ss) = let rest = nonempty ss in if s == "" then rest else s ∷ rest

unfoldable pub tokens : Texts → String → List String
tokens x intent = let ts = nonempty (x.split intent) in ts ++ (map x.rstrip ts ++ x.quoted intent)

module _ (x : Texts) (c : Classifier) where
  unfoldable pub keyword_signals : String → List String → List String
  keyword_signals text [] = []
  keyword_signals text (kw ∷ kws) =
      let rest = keyword_signals text kws in
      if x.has_word kw text then keyword_signal kw ∷ rest else rest

  -- `text` is in lower case
  unfoldable pub command_signals : String → List String → List String
  command_signals text [] = []
  command_signals text (pat ∷ pats) =
      let rest = command_signals text pats in
      if x.contains pat text then command_signal x.strip pat ∷ rest else rest

  unfoldable pub path_match : String → List String → Option String
  path_match p [] = none
  path_match p (glob ∷ globs) =
      let rest = path_match p globs in
      if x.fnmatch p glob || x.fnmatch (x.base_name p) glob
      then some (path_signal_of glob)
      else rest

  unfoldable pub path_signal : String → Option String
  path_signal path = path_match (x.slashed path) c.path_globs

  abbrev pub optional : Option String → List String
  optional none = []
  optional (some s) = s ∷ []

  -- the text whose keywords count, and the signal of the path; an empty path is none
  abbrev pub is_path : Option String → Bool
  is_path none = false
  is_path (some p) = not (p == "")

  abbrev pub path_signals : Option String → List String
  path_signals none = []
  path_signals (some p) = let found = path_signal p in if p == "" then [] else optional found

  -- the signals of `classify`; the action is governed where there is one
  unfoldable pub classify : String → Option String → String → List String
  unfolding is_path path_signals optional
  classify intent action_path action_diff =
      let text =
        if is_path action_path
        then x.lower intent
        else x.lower (str_append intent (str_append " " action_diff)) in
      (keyword_signals text c.keywords ++ command_signals (x.lower action_diff) c.command_patterns)
      ++ path_signals action_path

  -- the path signals of the tokens that are not there yet
  abbrev pub add_new : Option String → List String → List String
  add_new none signals = signals
  add_new (some s) signals = if str_mem s signals then signals else signals ++ s ∷ []

  unfoldable pub add_paths : List String → List String → List String
  unfolding add_new
  add_paths [] signals = signals
  add_paths (token ∷ rest) signals = add_paths rest (add_new (path_signal token) signals)

  unfoldable pub coverage : String → List String
  coverage intent = add_paths (tokens x intent) (
      keyword_signals (x.lower intent) c.keywords
      ++ command_signals (x.lower intent) c.command_patterns)
