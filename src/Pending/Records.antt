-- ===== src/Pending/Records.antt =====
-- The documents that pending.py keeps on disk, and its exceptions. Times are whole numbers.
use Prim.Native.Char.{code}
use Prim.Native.String.{[], ◌∷◌}
use data_olympus.Base.{ℕ, suc, String, Bool, true, ◌&&◌, ◌||◌, Option, List, leb, eqb}

pub data Fault : Type 0 where
  path_lock_busy queue_full not_found already_resolved claim_fenced : Fault
  claim_unreadable read_failed write_failed value_error : Fault

-- a reference authored as one id, as a list of ids, or as neither
pub data RefValue : Type 0 where
  scalar : String → RefValue
  many : List String → RefValue
  other : RefValue

-- the keys of `meta` that the queue reads
pub record Meta : Type 0 where
  pub intent : Option String
  pub contradicts : Option RefValue
  pub dispute : Bool
  pub reason : Option String
  pub agent_identity : Option String

-- `claimed_at` is `none` where it is absent or no number
pub record ClaimStamp : Type 0 where
  pub claim_token : String
  pub claimed_at : Option ℕ

pub record WriteContext : Type 0 where
  pub session_ref : String
  pub pre_write_ref_sha : String

pub data WriteOutcome : Type 0 where
  committed : String → WriteOutcome
  failed : String → WriteOutcome
  unknown : String → WriteOutcome

-- why reconciliation reports what it reports: one constructor for each message
pub data Reason : Type 0 where
  durable_commit linked_commit no_search nothing_found : Reason
  recorded_failure : String → Reason
  search_error : String → Reason
  record_unreadable : Reason

pub record Uncertain : Type 0 where
  pub reason : Reason
  pub last_checked_at : ℕ

pub data ProposalType : Type 0 where
  memory edit : ProposalType

pub record Proposal : Type 0 where
  pub proposal_type : ProposalType
  pub target_path : String
  pub postimage : String
  pub base_commit : String
  pub base_blob_sha : Option String
  pub target_file_hash : Option String
  pub meta : Meta

-- `<pid>.json` and `<pid>.claimed`
pub record Entry : Type 0 where
  pub pending_id : String
  pub proposal : Proposal
  pub open proposal use *
  pub enqueued_at : ℕ
  pub claim : Option ClaimStamp
  pub write_context : Option WriteContext
  pub write_outcome : Option WriteOutcome
  pub reconcile : Option Uncertain
  pub effective_postimage : Option String
  pub effective_postimage_sha256 : Option String

-- an entry's file: a document, bytes that are no JSON, or a file that cannot be opened
pub data EntryFile : Type 0 where
  doc : Entry → EntryFile
  garbled denied : EntryFile

-- a lock's file. A field is `none` where it is absent or no text (no number, for the time).
pub record LockInfo : Type 0 where
  pub pending_id : Option String
  pub target_path : Option String
  pub owner_kind : Option String
  pub acquired_at : Option ℕ
  pub intent : Option String
  pub contradicts : Option (List String)

pub data LockFile : Type 0 where
  held : LockInfo → LockFile
  unreadable : LockFile

is_hex : ℕ → Bool
is_hex c = leb b'0' c && leb c b'9' || leb b'a' c && leb c b'f'

all_hex : String → Bool
all_hex [] = true
all_hex (c ∷ s) = is_hex (code c) && all_hex s

char_count : String → ℕ
char_count [] = 0
char_count (_ ∷ s) = suc (char_count s)

-- `_PENDING_ID_RE.fullmatch`
unfoldable pub is_pending_id : String → Bool
unfolding is_hex all_hex char_count
is_pending_id s = eqb (char_count s) 32 && all_hex s
