-- ===== src/Push/Recovery.antt =====
-- push_queue.py: `init_recovery` at startup.
use data_olympus.Base.{ℕ, String, true, List, [], ◌∷◌, ◌≡◌, ◌⊎◌, str_mem}
use data_olympus.Push.{QueueFile, queued, new_entry}

module _ (now : ℕ) where
  -- the commit is unpushed in one of the worktrees
  abbrev pub Unpushed : String → List (String × List String) → Type 0
  Unpushed k [] = ⊥
  Unpushed k ((w, shas) ∷ trees) = (str_mem k shas ≡ true) ⊎ Unpushed k trees

  -- the file is the fresh entry of this commit, for one of the worktrees that have it unpushed
  abbrev pub IsRecovered : String → QueueFile → List (String × List String) → Type 0
  IsRecovered k f [] = ⊥
  IsRecovered k f ((w, shas) ∷ trees) =
      ((str_mem k shas ≡ true) × (f ≡ queued (new_entry k w now true))) ⊎ IsRecovered k f trees
