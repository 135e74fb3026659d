-- ===== src/Pending/Refusal.antt =====
-- pending.py: `enqueue` and `path_lock` on a path with a proposal in flight.
use data_olympus.Base.{
  String, ℕ, Option, none, some, List, [], lookup, ◌≡◌, ◌⊎◌, inl, inr, refl, arith, Bool-cases,
  Option-cases,
}
use data_olympus.Pending.Records.{Entry, Proposal, LockFile, path_lock_busy, queue_full}
use data_olympus.Pending.Disk.{run, Disk, err, Exec, gets, guard, onward, ◌>>=◌}
use data_olympus.Pending.Lock.{path_lock_filename, acquire_lock, path_lock}
use data_olympus.Pending.Queue.{normalized, WriteFault, at_capacity, enqueue}
use data_olympus.Pending.Held.{holder, owner_at, owner}
use data_olympus.Pending.System.{Reach, empty}
use data_olympus.Pending.System.Exclusion.{InFlight, InFlight-owner, Reach-Held, empty-Held}

module _ (cap : ℕ) (sha256 : String → String) where
  locked-lookup :
      (d : Disk) (path p : String)
      → owner sha256 d.locks path ≡ some p
      → (f : LockFile) × (lookup (path_lock_filename sha256 path) d.locks ≡ some f)
  unfolding owner_at holder
  locked-lookup d path p own =
      elim (Option-cases (lookup (path_lock_filename sha256 path) d.locks)) [
        | inl free ↦ let bad : ⊥ = ground (arith, free) in absurd bad
        | inr there ↦ there
      ]

  acquire_lock-busy :
      (d : Disk) (path who kind : String) (intent : Option String)
      (contradicts : Option (List String)) (now : ℕ) (f : LockFile)
      → lookup (path_lock_filename sha256 path) d.locks ≡ some f
      → acquire_lock sha256 path who kind intent contradicts now d ≡ (err path_lock_busy, [])
  unfolding acquire_lock ◌>>=◌ onward gets guard
  acquire_lock-busy d path who kind intent contradicts now f at = ground (arith, at)

  enqueue-busy :
      (d : Disk) (fault : WriteFault) (q : String) (now : ℕ) (w : Proposal) (f : LockFile)
      → lookup (path_lock_filename sha256 w.target_path) d.locks ≡ some f
      → (enqueue cap sha256 fault q now w d ≡ (err path_lock_busy, []))
        ⊎ (enqueue cap sha256 fault q now w d ≡ (err queue_full, []))
  unfolding enqueue ◌>>=◌ onward gets guard run
  enqueue-busy d fault q now w f at = elim (Bool-cases (at_capacity cap d)) [
    | inl full ↦ inr (ground (arith, full))
    | inr room ↦ inl (
        ground (
          arith,
          room,
          acquire_lock-busy d w.target_path q "pending" w.meta.intent
              (normalized w.meta.contradicts) now f at,
        ))
  ]

  path_lock-busy {ℓ} :
      {A : Type ℓ} (d : Disk) (path who : String) (now : ℕ) (body : Exec A) (f : LockFile)
      → lookup (path_lock_filename sha256 path) d.locks ≡ some f
      → path_lock sha256 path who now body d ≡ (err path_lock_busy, [])
  unfolding path_lock ◌>>=◌ onward
  path_lock-busy d path who now body f at =
      rw (acquire_lock-busy d path who "auto_commit" none none now f at) refl

  -- On every disk that calls which keep to `Allowed`, and crashes, lead to from the empty queue: a
  -- path with a readable entry in flight refuses another proposal, as busy or because the queue is
  -- full, and refuses an auto-commit as busy; none of them makes a file-system call.
  pub InFlight-refuses {ℓ} :
      {A : Type ℓ} (d : Disk) (p q who : String) (e : Entry) (fault : WriteFault) (now : ℕ)
      (w : Proposal) (body : Exec A)
      → Reach cap sha256 empty d
      → InFlight d p e
      → w.target_path ≡ e.target_path
      → ((enqueue cap sha256 fault q now w d ≡ (err path_lock_busy, []))
          ⊎ (enqueue cap sha256 fault q now w d ≡ (err queue_full, [])))
        × (path_lock sha256 e.target_path who now body d ≡ (err path_lock_busy, []))
  InFlight-refuses d p q who e fault now w body r flight same =
      let own =
        InFlight-owner cap sha256 d p e (Reach-Held cap sha256 (empty-Held cap sha256) r) flight in
      let (f, at) = locked-lookup d e.target_path p own in
      (
        enqueue-busy d fault q now w f (rw same at),
        path_lock-busy d e.target_path who now body f at,
      )
