-- ===== src/Push/Demote.antt =====
-- refresh.py: `demote_conflict_to_pending`, the callback of the drain at a rebase conflict. The files
-- that the commit changed, with their contents in it, are git's answers.
use Prim.Native.String.{◌++◌ as str_append}
use data_olympus.Base.{
  ℕ, String, Bool, true, false, Option, none, some, List, [], ◌∷◌, ◌≡◌, refl, ◌⊎◌, inl, inr,
}
use data_olympus.Pending.Records.{Proposal, edit, Entry, path_lock_busy, queue_full}
use data_olympus.Pending.Disk.{Disk, Exec, err, pure, onward, ◌>>=◌, ◌>>◌}
use data_olympus.Pending.Queue.{WriteFault, enqueue}
use data_olympus.Pending.System.{Reach, empty}
use data_olympus.Pending.System.Exclusion.{InFlight}
use data_olympus.Pending.Refusal.{InFlight-refuses}

-- A file of the commit: its content, none where it was deleted, and the fresh id of its proposal.
pub record Changed : Type 0 where
  pub path : String
  pub content : Option String
  pub pending_id : String

module _ (cap : ℕ) (sha256 : String → String) (fault : WriteFault) (now : ℕ)
    (sha agent_identity : String) where
  unfoldable pub demoted_proposal : String → String → Proposal
  demoted_proposal path content = record {
    proposal_type = edit;
    target_path = path;
    postimage = content;
    base_commit = str_append sha "^";
    base_blob_sha = none;
    target_file_hash = none;
    meta = record {
      intent = none;
      contradicts = none;
      dispute = false;
      reason = some "demoted from push queue after rebase conflict";
      agent_identity = some agent_identity;
    };
  }

  -- whether anything was proposed again; where nothing was, the callback raises
  unfoldable pub demote_conflict_to_pending : List Changed → Exec Bool
  demote_conflict_to_pending [] = pure false
  demote_conflict_to_pending (c ∷ cs) =
      let rest = demote_conflict_to_pending cs in
      elim c.content [
        | none ↦ rest
        | some content ↦ do
          enqueue cap sha256 fault c.pending_id now (demoted_proposal c.path content)
          rest
          pure true
      ]

  -- the call stops without an effect
  abbrev pub IsRefused : Disk → List Changed → Type 0
  IsRefused d cs =
      (demote_conflict_to_pending cs d ≡ (err path_lock_busy, []))
      ⊎ (demote_conflict_to_pending cs d ≡ (err queue_full, []))

  -- A conflict is not demoted while a proposal for its first file is in flight: on every disk that
  -- calls and crashes of the pending queue can leave, the callback raises without a file-system call,
  -- so that no later file of the commit is proposed either. This holds for the proposal that an
  -- earlier try of the same conflict has made.
  pub demote_conflict_to_pending-IsRefused :
      (d : Disk) (p : String) (e : Entry) (c : Changed) (cs : List Changed) (content : String)
      → Reach cap sha256 empty d
      → InFlight d p e
      → c.path ≡ e.target_path
      → c.content ≡ some content
      → IsRefused d (c ∷ cs)
  unfolding demote_conflict_to_pending ◌>>=◌ onward demoted_proposal
  demote_conflict_to_pending-IsRefused d p e c cs content r flight same is =
      elim (InFlight-refuses cap sha256 d p c.pending_id "" e fault now
        (demoted_proposal c.path content) (pure true) r flight same).0 [
          | inl busy ↦ inl (rw (is, busy) refl)
          | inr full ↦ inr (rw (is, full) refl)
        ]
