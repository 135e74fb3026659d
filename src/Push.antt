-- ===== src/Push.antt =====
-- src/data_olympus/push_queue.py: commits that wait for `git push`, one file for each commit.
-- The git side is a function from a worktree's path to what `push_fn` does there, and the demotion
-- callback a function from an entry to whether it returned. Times are whole numbers.
pub mod Survival
pub mod Contention
pub mod Recovery
pub mod Demote
use Prim.Native.String.{◌++◌}
use data_olympus.Base.{
  ℕ, String, ◌+◌, Bool, true, false, ◌&&◌, ◌||◌, not, Option, none, some, List, [], ◌∷◌, Dict,
  lookup, put, remove, keys, length, leb, ltb, if◌then◌else◌,
}
use data_olympus.Pending.Reconcile.{sort_names}

pub record PushEntry : Type 0 where
  pub sha : String
  pub worktree_path : String
  pub enqueued_at : ℕ
  pub attempts : ℕ
  pub last_error : String
  pub last_error_at : Option ℕ
  pub non_ff_attempts : ℕ
  pub frozen : Bool
  pub recovered : Bool

-- a queue file: an entry, or bytes that are no JSON
pub data QueueFile : Type 0 where
  queued : PushEntry → QueueFile
  garbled : QueueFile

pub data PushOutcome : Type 0 where
  pushed : PushOutcome
  rebase_conflict : String → PushOutcome
  non_fast_forward : String → PushOutcome
  evidence_at_risk : PushOutcome
  fails : String → PushOutcome

abbrev pub new_entry : String → String → ℕ → Bool → PushEntry
new_entry sha worktree_path now recovered = record {
  sha = sha;
  worktree_path = worktree_path;
  enqueued_at = now;
  attempts = 0;
  last_error = "";
  last_error_at = none;
  non_ff_attempts = 0;
  frozen = false;
  recovered = recovered;
}

unfoldable pub enqueue : String → String → ℕ → Dict QueueFile → Dict QueueFile
enqueue sha worktree_path now q = put sha (queued (new_entry sha worktree_path now false)) q

unfoldable pub size : Dict QueueFile → ℕ
size q = length q

abbrev pub is_frozen : QueueFile → Bool
is_frozen garbled = false
is_frozen (queued e) = e.frozen

unfoldable pub frozen_count : Dict QueueFile → ℕ
frozen_count [] = 0
frozen_count ((_, f) ∷ q) = (if is_frozen f then 1 else 0) + frozen_count q

-- `_record_retry`; `max_attempts` is `none` where the caller gives none
abbrev pub reached : Option ℕ → ℕ → Bool
reached none n = false
reached (some limit) n = leb limit n

unfoldable pub record_retry : ℕ → String → Option ℕ → Bool → PushEntry → PushEntry
record_retry now error max_attempts reset_non_ff e = record e {
  attempts = e.attempts + 1;
  last_error = error;
  last_error_at = some now;
  non_ff_attempts = if reset_non_ff then 0 else e.non_ff_attempts;
  frozen = reached max_attempts (e.attempts + 1) || e.frozen;
}

-- `_demote`: true if there is a callback and it returned
unfoldable pub demote : Option (PushEntry → Bool) → PushEntry → Bool
demote none e = false
demote (some callback) e = callback e

abbrev pub non_ff_demote_after : ℕ
non_ff_demote_after = 5

-- one more attempt that lost the race
abbrev pub counted : PushEntry → PushEntry
counted e = record e { non_ff_attempts = e.non_ff_attempts + 1 }

-- what the drain does with one file: it removes it, or writes it anew
pub data Fate : Type 0 where
  published demoted : Fate
  kept : PushEntry → Fate

module _ (push_fn : String → PushOutcome) (callback : Option (PushEntry → Bool))
    (max_attempts now : ℕ) where
  unfoldable pub after_push : PushEntry → PushOutcome → Fate
  after_push e pushed = published
  after_push e (rebase_conflict detail) =
      if demote callback e
      then demoted
      else kept (record_retry now ("rebase_conflict: " ++ detail) none true e)
  after_push e (non_fast_forward detail) =
      if leb non_ff_demote_after (e.non_ff_attempts + 1) && demote callback (counted e)
      then demoted
      else kept
          (record_retry now ("non_fast_forward: " ++ detail) (some max_attempts) false (counted e))
  after_push e evidence_at_risk = kept e
  after_push e (fails message) = kept (record_retry now message (some max_attempts) true e)

  unfoldable pub drain_entry : PushEntry → Fate
  drain_entry e = if e.frozen then kept e else after_push e (push_fn e.worktree_path)

  unfoldable pub settle : String → Fate → Dict QueueFile → Dict QueueFile
  settle name published q = remove name q
  settle name demoted q = remove name q
  settle name (kept e) q = put name (queued e) q

  -- The loop. A file that is no JSON raises out of it; what was done before it stays done.
  unfoldable pub drain_names : List String → Dict QueueFile → Bool × Dict QueueFile
  drain_names [] q = (true, q)
  drain_names (name ∷ names) q = elim (lookup name q) [
    | none ↦ drain_names names q
    | some garbled ↦ (false, q)
    | some (queued e) ↦ drain_names names (settle name (drain_entry e) q)
  ]

  unfoldable pub drain : Dict QueueFile → Bool × Dict QueueFile
  drain q = drain_names (sort_names (keys q)) q

-- the unpushed commits of one worktree
unfoldable pub recover_shas : String → ℕ → List String → Dict QueueFile → Dict QueueFile
recover_shas worktree_path now [] q = q
recover_shas worktree_path now (sha ∷ shas) q =
    recover_shas worktree_path now shas (elim (lookup sha q) [
      | some _ ↦ q
      | none ↦ put sha (queued (new_entry sha worktree_path now true)) q
    ])

-- the worktrees, with what `list_unpushed_shas` answers for each
unfoldable pub init_recovery : ℕ → List (String × List String) → Dict QueueFile → Dict QueueFile
init_recovery now [] q = q
init_recovery now ((worktree_path, shas) ∷ rest) q =
    init_recovery now rest (recover_shas worktree_path now shas q)
