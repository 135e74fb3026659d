-- ===== src/Tests/Pending.antt =====
-- Runs of the pending queue (pending.py).
use data_olympus.Base.{false, String, none, some, [], lookup, put, remove, ◌≡◌, refl, inr}
use data_olympus.Pending.Records.{Proposal, memory, Entry, is_pending_id}
use data_olympus.Pending.Disk.{Disk, apply, run, pure, raise, gets, emit, guard, onward, ◌>>=◌}
use data_olympus.Pending.Lock.{path_lock_filename, acquire_lock}
use data_olympus.Pending.Queue.{size, completes, publish, enqueue, new_entry}
use data_olympus.Pending.Claim.{
  claim, rename_to_claimed, load_sidecar, stamped, claim_for_resolve, store_digest,
}
use data_olympus.Pending.Held.Completion.{Vacant}
use data_olympus.Pending.System.{
  Call, enqueues, claims, effects, performs, Reach, here, next, empty,
}
use data_olympus.Pending.System.Exclusion.{Reach-exclusive, InFlight}

abbrev pub digest : String → String
digest s = s

abbrev pub first : String
first = "00000000000000000000000000000001"

abbrev pub second : String
second = "0000000000000000000000000000000f"

abbrev pub proposal : String → Proposal
proposal path = record {
  proposal_type = memory;
  target_path = path;
  postimage = "text";
  base_commit = "c0";
  base_blob_sha = none;
  target_file_hash = none;
  meta = record {
    intent = some "memory";
    contradicts = none;
    dispute = false;
    reason = none;
    agent_identity = some "agent";
  };
}

abbrev one : Call
one = enqueues completes first 10 (proposal "a.md")

abbrev two : Call
two = enqueues completes second 11 (proposal "b.md")

abbrev three : Call
three = claims first none "t" 12

abbrev first_enqueued : Disk
first_enqueued = run (effects 2 digest one empty) empty

abbrev pub both_enqueued : Disk
both_enqueued = run (effects 2 digest two first_enqueued) first_enqueued

abbrev pub first_claimed : Disk
first_claimed = run (effects 2 digest three both_enqueued) both_enqueued

abbrev pub entry : Entry
entry = stamped "t" 12 (new_entry first (proposal "a.md") 10)

Vacant-empty : (p : String) → Vacant p []
unfolding lookup
Vacant-empty p e h = cc

pub reached : Reach 2 digest empty first_claimed
unfolding effects enqueue size acquire_lock publish claim_for_resolve claim rename_to_claimed
    load_sidecar store_digest is_pending_id path_lock_filename ◌>>=◌ onward pure raise gets emit
    guard run apply lookup put remove
reached =
    next
      (next
        (next here (performs one (Vacant-empty first) (effects 2 digest one empty) [] refl refl))
        (performs two (Vacant-empty second) (effects 2 digest two first_enqueued) [] refl refl))
      (performs three tt (effects 2 digest three both_enqueued) [] refl refl)

pub InFlight-first : InFlight first_claimed first entry
unfolding effects enqueue size acquire_lock publish claim_for_resolve claim rename_to_claimed
    load_sidecar store_digest is_pending_id path_lock_filename ◌>>=◌ onward pure raise gets emit
    guard run apply lookup put remove
InFlight-first = inr refl

Reach-exclusive_example : first ≡ first
Reach-exclusive_example =
    Reach-exclusive 2 digest first_claimed first first entry entry reached InFlight-first
      InFlight-first refl
