-- ===== src/Tests/Push.antt =====
-- Runs of the push queue (push_queue.py).
use data_olympus.Base.{
  String, Bool, true, false, Option, some, List, [], ◌∷◌, ◌++◌, Dict, lookup, ◌≡◌, refl, arith,
}
use data_olympus.Push.{
  PushEntry, QueueFile, queued, garbled, PushOutcome, pushed, non_fast_forward, kept, demoted,
  demote, drain, new_entry,
}
use data_olympus.Push.Survival.{Accounted, drain-Accounted}
use data_olympus.Push.Contention.{rounds, races, failures, contention_demotes, failures_freeze}

abbrev callback : Option (PushEntry → Bool)
callback = some (λ e. true)

abbrev push_fn : String → PushOutcome
push_fn w = non_fast_forward "behind"

abbrev e : PushEntry
e = new_entry "c1" "/wt/one" 7 false

abbrev files : Dict QueueFile
files = ("c2", garbled) ∷ ("c1", queued e) ∷ []

lookup-files : lookup "c1" files ≡ some (queued e)
unfolding lookup
lookup-files = refl

drain-Accounted_example :
    Accounted push_fn callback 30 8 "c1" "c1" "/wt/one" (drain push_fn callback 30 8 files).1
drain-Accounted_example = drain-Accounted push_fn callback 30 8 files "c1" e lookup-files

takes : (x : PushEntry) → demote callback x ≡ true
unfolding demote
takes x = refl

contention_demotes_example : rounds callback 30 8 (races callback 30 8 "behind" 5) e ≡ demoted
contention_demotes_example =
    contention_demotes callback 30 8 "behind" e (omega arith) takes refl refl refl

failures_freeze_example :
    (e' : PushEntry) × (e'.frozen ≡ true)
    × (rounds callback 3 8 (failures callback 3 8 "timeout" 3 ++ pushed ∷ []) e ≡ kept e')
failures_freeze_example =
    failures_freeze callback 3 8 "timeout" 2 (pushed ∷ []) e refl (omega arith)

abbrev trees : List (String × List String)
trees = ("/wt/one", "c1" ∷ "c3" ∷ []) ∷ []
