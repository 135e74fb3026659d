-- ===== src/Pending/Handling.antt =====
-- pending.py: what a claim leads to, from the live entry to its end: the approval, or the way back.
use data_olympus.Base.{
  sym, ap, ◌∙◌, String, ℕ, true, Option, none, some, List, [], ◌∷◌, put, remove, lookup, ◌≡◌, refl,
  arith, lookup-put_self, lookup-remove_self, eq_refl,
}
use data_olympus.Pending.Records.{LockFile, held, unreadable, Entry, doc, is_pending_id, not_found}
use data_olympus.Pending.Disk.{
  Disk, Effect, apply, run, ok, err, Exec, pure, gets, emit, guard, onward, ◌>>=◌, final,
  write_claimed, remove_claimed, unlink_lock,
}
use data_olympus.Pending.Lock.{
  path_lock_filename, names_holder, release_lock_owned_by, release_if, release_lock, unlink_if,
}
use data_olympus.Pending.Claim.{
  claim, stamped, sidecar, read_claim, token_matches, check_token, fenced, record_write_context,
  restore_resolve, as_enqueued, approve, finish_claim, to_resolved,
}
use data_olympus.Pending.Ensures.{run-append}
use data_olympus.Pending.Survival.{claim_runs, restore_runs}

-- what a program does once its first part has returned
module _ {ℓ κ} {A : Type ℓ} {B : Type κ} (m : Exec A) (k : A → Exec B) (d d' : Disk) (a : A)
    (es : List Effect) where
  runs_to : m d ≡ (ok a, es) → final m d ≡ d' → run es d ≡ d'
  runs_to h is = ap (λ r. run r.1 d) (sym h) ∙ is

  pub bind_result : m d ≡ (ok a, es) → final m d ≡ d' → ((m >>= k) d).0 ≡ (k a d').0
  unfolding ◌>>=◌ onward
  bind_result h is = rw h (ap (λ x. (k a x).0) (runs_to h is))

  pub bind_final : m d ≡ (ok a, es) → final m d ≡ d' → final (m >>= k) d ≡ final (k a) d'
  unfolding ◌>>=◌ onward
  bind_final h is = rw h (run-append d es (k a (run es d)).1 ∙ ap (final (k a)) (runs_to h is))

-- an entry with a write context
abbrev contexted : String → String → Entry → Entry
contexted session_ref pre e = record e {
  write_context = some (record { session_ref = session_ref; pre_write_ref_sha = pre });
}

module _ (p token : String) (now : ℕ) (d : Disk) (e : Entry) where
  -- the disk that a claim of the live entry leaves
  abbrev taken : Disk
  taken = record d {
    live = remove p d.live;
    claimed = put p (doc (stamped token now e)) (put p (doc e) d.claimed);
  }

  claim-taken :
      is_pending_id p ≡ true → lookup p d.live ≡ some (doc e) → final (claim p token now) d ≡ taken
  unfolding run apply
  claim-taken valid at = rw (claim_runs p d e token now valid at) ground (arith, at)

  -- A claim has one winner: once a valid live entry is claimed, any further claim of it is refused as
  -- not found, without a file-system call.
  claim_once :
      (other : String) (later : ℕ)
      → is_pending_id p ≡ true
      → lookup p d.live ≡ some (doc e)
      → claim p other later (final (claim p token now) d) ≡ (err not_found, [])
  claim_once other later valid at = rw (claim-taken valid at) refused
    where
      refused : claim p other later taken ≡ (err not_found, [])
      refused =
          unfold claim ◌>>=◌ onward gets guard run in
          ground (arith, valid, lookup-remove_self p d.live)

  context_runs :
      (session_ref pre : String) (d' : Disk) (c : Entry)
      → lookup p d'.claimed ≡ some (doc c)
      → token_matches (some token) c ≡ true
      → record_write_context p (some token) session_ref pre d'
        ≡ (ok tt, write_claimed p (contexted session_ref pre c) ∷ [])
  unfolding record_write_context fenced read_claim sidecar check_token ◌>>=◌ onward gets pure guard
      emit run
  context_runs session_ref pre d' c at owns = ground (arith, at, owns)

  -- the disk that a restore of the claimed entry `c` leaves
  abbrev pub restored : Entry → Disk → Disk
  restored c d' = record d' {
    live = put p (doc (as_enqueued c)) d'.live;
    claimed = remove p d'.claimed;
    restoring = remove p (put p (doc (as_enqueued c)) d'.restoring);
  }

  pub restore-restored :
      (d' : Disk) (c : Entry)
      → lookup p d'.claimed ≡ some (doc c)
      → token_matches (some token) c ≡ true
      → final (restore_resolve p (some token)) d' ≡ restored c d'
  unfolding run apply
  restore-restored d' c at owns =
      rw (restore_runs p d' c token at owns) ground
        (arith, lookup-put_self p (doc (as_enqueued c)) d'.restoring)

  -- the disk of a claim with its write context recorded
  abbrev ready : String → String → Disk
  ready session_ref pre = record taken {
    claimed = put p (doc (contexted session_ref pre (stamped token now e))) taken.claimed;
  }

  context-ready :
      (session_ref pre : String)
      → final (record_write_context p (some token) session_ref pre) taken ≡ ready session_ref pre
  unfolding run apply
  context-ready session_ref pre =
      rw
        (context_runs session_ref pre taken (stamped token now e)
          (lookup-put_self p (doc (stamped token now e)) (put p (doc e) d.claimed)) (eq_refl token))
        refl

  -- A live entry that is claimed, has its write context recorded and is then restored with the
  -- claim's token is live again as it was enqueued, is claimed no more, and the locks are as before.
  pub handed_back :
      (session_ref pre : String)
      → is_pending_id p ≡ true
      → lookup p d.live ≡ some (doc e)
      → let written =
          final
            (record_write_context p (some token) session_ref pre)
            (final (claim p token now) d) in
        let after = final (restore_resolve p (some token)) written in
        ((restore_resolve p (some token) written).0 ≡ ok tt)
        × ((lookup p after.live ≡ some (doc (as_enqueued e)))
            × ((lookup p after.claimed ≡ none) × (after.locks ≡ d.locks)))
  handed_back session_ref pre valid at =
      rw (claim-taken valid at, context-ready session_ref pre)
        (
          rw (restore_runs p (ready session_ref pre) c token here (eq_refl token)) refl,
          rw (restore-restored (ready session_ref pre) c here (eq_refl token)) (
            lookup-put_self p (doc (as_enqueued e)) (remove p d.live),
            (lookup-remove_self p (ready session_ref pre).claimed, refl),
          ),
        )
    where
      c : Entry
      c = contexted session_ref pre (stamped token now e)

      here : lookup p (ready session_ref pre).claimed ≡ some (doc c)
      here = lookup-put_self p (doc c) taken.claimed

  module _ (sha256 : String → String) where
    -- the disk without the claimed entry and without the lock of its path
    abbrev pub cleared : Disk → Disk
    cleared d' = record d' {
      claimed = remove p d'.claimed;
      locks = remove (path_lock_filename sha256 e.target_path) d'.locks;
    }

    pub finish_runs :
        (d' : Disk)
        → names_holder p (lookup (path_lock_filename sha256 e.target_path) d'.locks) ≡ true
        → finish_claim sha256 p e.target_path d'
          ≡ (ok tt, remove_claimed p ∷ unlink_lock (path_lock_filename sha256 e.target_path) ∷ [])
    finish_runs d' own =
        by_file (lookup (path_lock_filename sha256 e.target_path) d'.locks) refl own
      where
        by_file :
            (f : Option LockFile)
            → lookup (path_lock_filename sha256 e.target_path) d'.locks ≡ f
            → names_holder p f ≡ true
            → finish_claim sha256 p e.target_path d' ≡ (
              ok tt,
              remove_claimed p ∷ unlink_lock (path_lock_filename sha256 e.target_path) ∷ [],
            )
        by_file none at h = cc
        by_file (some unreadable) at h = cc
        by_file (some (held l)) at h =
            unfold finish_claim release_lock_owned_by release_if release_lock unlink_if ◌>>=◌ onward
              gets emit pure run apply in
            ground (arith, at, h)

    pub finish-cleared :
        (d' : Disk)
        → names_holder p (lookup (path_lock_filename sha256 e.target_path) d'.locks) ≡ true
        → final (finish_claim sha256 p e.target_path) d' ≡ cleared d'
    unfolding run apply
    finish-cleared d' own = rw (finish_runs d' own) refl

    approve_runs :
        (text : Option String)
        → is_pending_id p ≡ true
        → lookup p d.live ≡ some (doc e)
        → names_holder p (lookup (path_lock_filename sha256 e.target_path) d.locks) ≡ true
        → ((approve sha256 p text token now d).0 ≡ ok (to_resolved p (stamped token now e) text))
          × (final (approve sha256 p text token now) d ≡ cleared taken)
    unfolding approve pure run
    approve_runs text valid at own =
        let claims = claim_runs p d e token now valid at in
        let finishes = finish_runs taken own in
        let end = finish-cleared taken own in
        (
          bind_result _ _ d taken _ _ claims (claim-taken valid at)
              ∙ (bind_result _ _ taken (cleared taken) _ _ finishes end ∙ refl),
          bind_final _ _ d taken _ _ claims (claim-taken valid at)
              ∙ (bind_final _ _ taken (cleared taken) _ _ finishes end ∙ refl),
        )

    -- The approval of a live entry that holds the lock of its path returns the proposal, with the
    -- operator's text where one is given, and leaves no entry, live or claimed, and no lock of the
    -- path.
    pub approve_clears :
        (text : Option String)
        → is_pending_id p ≡ true
        → lookup p d.live ≡ some (doc e)
        → names_holder p (lookup (path_lock_filename sha256 e.target_path) d.locks) ≡ true
        → let after = final (approve sha256 p text token now) d in
          ((approve sha256 p text token now d).0 ≡ ok (to_resolved p (stamped token now e) text))
          × ((lookup p after.live ≡ none)
              × ((lookup p after.claimed ≡ none)
                  × (lookup (path_lock_filename sha256 e.target_path) after.locks ≡ none)))
    approve_clears text valid at own =
        let (result, disk) = approve_runs text valid at own in
        (
          result,
          rw disk (
            lookup-remove_self p d.live,
            (
              lookup-remove_self p taken.claimed,
              lookup-remove_self (path_lock_filename sha256 e.target_path) d.locks,
            ),
          ),
        )
