-- ===== src/Pending/Queue.antt =====
-- `enqueue`, `get`, `size` and `would_exceed` of pending.py.
use Prim.Native.Char.{code}
use data_olympus.Base.{
  ℕ, String, ◌+◌, ◌==◌, Bool, true, false, not, ◌&&◌, ◌||◌, Option, none, some, List, [], ◌∷◌,
  lookup, has, length, ltb, leb, eqb, if◌then◌else◌,
}
use data_olympus.Pending.Records.{
  RefValue, scalar, many, other, Proposal, Entry, EntryFile, doc, garbled, denied, is_pending_id,
  queue_full, not_found, read_failed, write_failed,
}
use data_olympus.Pending.Disk.{Disk, write_live, Exec, pure, raise, gets, emit, guard, ◌>>=◌, ◌>>◌}
use data_olympus.Pending.Lock.{acquire_lock, release_lock}

-- what `str.strip` takes off
unfoldable pub is_space : ℕ → Bool
is_space c =
    leb 9 c && leb c 13
    || leb 28 c && leb c 32
    || eqb c 133
    || eqb c 160
    || eqb c 5760
    || leb 8192 c && leb c 8202
    || eqb c 8232
    || eqb c 8233
    || eqb c 8239
    || eqb c 8287
    || eqb c 12288

lstrip : String → String
lstrip String.[] = String.[]
lstrip (String.◌∷◌ c s) = let rest = lstrip s in if is_space (code c) then rest else String.◌∷◌ c s

rstrip : String → String
rstrip String.[] = String.[]
rstrip (String.◌∷◌ c s) =
    let rest = rstrip s in
    if is_space (code c) && (rest == "") then String.[] else String.◌∷◌ c rest

unfoldable pub strip : String → String
unfolding is_space lstrip rstrip
strip s = rstrip (lstrip s)

strip_all : List String → List String
strip_all [] = []
strip_all (v ∷ vs) = let rest = strip_all vs in if strip v == "" then rest else strip v ∷ rest

unfoldable pub as_id_list : RefValue → List String
unfolding strip strip_all
as_id_list (many vs) = strip_all vs
as_id_list (scalar v) = if strip v == "" then [] else strip v ∷ []
as_id_list other = []

abbrev pub normalized : Option RefValue → Option (List String)
normalized none = none
normalized (some v) = some (as_id_list v)

unfoldable pub size : Disk → ℕ
size d = length d.live

-- `atomic_write_json` returns, raises before its rename, or raises in the fsync after it
pub data WriteFault : Type 0 where
  completes fails_before fails_after : WriteFault

abbrev pub new_entry : String → Proposal → ℕ → Entry
new_entry pending_id p now = record {
  pending_id = pending_id;
  proposal = p;
  enqueued_at = now;
  claim = none;
  write_context = none;
  write_outcome = none;
  reconcile = none;
  effective_postimage = none;
  effective_postimage_sha256 = none;
}

module _ (cap : ℕ) where
  unfoldable pub would_exceed : ℕ → Disk → Bool
  would_exceed n d = ltb 0 cap && ltb cap (size d + n)

  abbrev pub at_capacity : Disk → Bool
  at_capacity d = ltb 0 cap && leb cap (size d)

module _ (sha256 : String → String) where
  unfoldable pub release_unpublished : Bool → String → Exec Bool
  release_unpublished true target_path = pure false
  release_unpublished false target_path = release_lock sha256 target_path none

  -- the write of the entry, and the handler around it
  unfoldable pub publish : WriteFault → String → Entry → Exec String
  publish completes pending_id e = do emit (write_live pending_id e); pure pending_id
  publish fails_before pending_id e = do
    published ← gets (λ d. has pending_id d.live)
    release_unpublished published e.target_path
    raise write_failed
  publish fails_after pending_id e = do
    emit (write_live pending_id e)
    published ← gets (λ d. has pending_id d.live)
    release_unpublished published e.target_path
    raise write_failed

module _ (cap : ℕ) (sha256 : String → String) where
  -- `pending_id` is the fresh uuid
  unfoldable pub enqueue : WriteFault → String → ℕ → Proposal → Exec String
  enqueue fault pending_id now p = do
    full ← gets (at_capacity cap)
    guard (not full) queue_full
    acquire_lock sha256 p.target_path pending_id "pending" p.meta.intent
        (normalized p.meta.contradicts) now
    publish sha256 fault pending_id (new_entry pending_id p now)

unfoldable pub loaded : Option EntryFile → Exec Entry
loaded none = raise not_found
loaded (some (doc e)) = pure e
loaded (some garbled) = raise read_failed
loaded (some denied) = raise read_failed

unfoldable pub get : String → Exec Entry
get pending_id = do
  guard (is_pending_id pending_id) not_found
  file ← gets (λ d. lookup pending_id d.live)
  loaded file
