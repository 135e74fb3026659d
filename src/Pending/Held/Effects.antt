-- ===== src/Pending/Held/Effects.antt =====
-- pending.py: each file-system call and the invariant.
use data_olympus.Base.{
  String, none, some, lookup, put, remove, Dict, ◌≡◌, ◌≢◌, arith, eq_iff, lookup-put, lookup-remove,
  Option-cases, inl, inr,
}
use data_olympus.Pending.Records.{Entry, EntryFile, doc, LockInfo, LockFile, held}
use data_olympus.Pending.Disk.{
  Disk, apply, write_live, write_claimed, write_restoring, rename_claim, rename_back,
  rename_publish, remove_claimed, link_lock, unlink_lock,
}
use data_olympus.Pending.Lock.{path_lock_filename}
use data_olympus.Pending.Held.{owner, owner_at-put, owner_at-remove, owner_at_free, Held}

module _ (sha256 : String → String) where
  -- every document of a directory holds its lock
  abbrev Guarded : Dict LockFile → Dict EntryFile → Type 0
  Guarded locks files =
      (p : String) (e : Entry)
      → lookup p files ≡ some (doc e)
      → owner sha256 locks e.target_path ≡ some p

  Guarded-put :
      (locks : Dict LockFile) (files : Dict EntryFile) (p : String) (f : EntryFile)
      → Guarded locks files
      → ((e : Entry) → f ≡ doc e → owner sha256 locks e.target_path ≡ some p)
      → Guarded locks (put p f files)
  Guarded-put locks files p f g h q e at =
      ground (arith, lookup-put p q f files, eq_iff p q, g q e, h e)

  Guarded-remove :
      (locks : Dict LockFile) (files : Dict EntryFile) (p : String)
      → Guarded locks files
      → Guarded locks (remove p files)
  Guarded-remove locks files p g q e at = ground (arith, lookup-remove p q files, eq_iff p q, g q e)

  kept_by_link :
      (locks : Dict LockFile) (n : String) (l : LockInfo) (p path : String)
      → lookup n locks ≡ none
      → owner sha256 locks path ≡ some p
      → owner sha256 (put n (held l) locks) path ≡ some p
  kept_by_link locks n l p path free own =
      let name = path_lock_filename sha256 path in
      ground (arith, owner_at-put n name l locks, eq_iff n name, owner_at_free n locks free)

  kept_by_unlink :
      (locks : Dict LockFile) (n p path : String)
      → path_lock_filename sha256 path ≢ n
      → owner sha256 locks path ≡ some p
      → owner sha256 (remove n locks) path ≡ some p
  kept_by_unlink locks n p path other own =
      let name = path_lock_filename sha256 path in
      ground (arith, owner_at-remove n name locks, eq_iff n name)

  module _ (d : Disk) (h : Held sha256 d) where
    pub Held-write_live :
        (p : String) (e : Entry)
        → owner sha256 d.locks e.target_path ≡ some p
        → Held sha256 (apply (write_live p e) d)
    unfolding apply
    Held-write_live p e own = record {
      live = Guarded-put d.locks d.live p (doc e) h.live (λ e' same. ground (arith, own));
      claimed = h.claimed;
      named = h.named;
    }

    pub Held-write_claimed :
        (p : String) (e : Entry)
        → owner sha256 d.locks e.target_path ≡ some p
        → Held sha256 (apply (write_claimed p e) d)
    unfolding apply
    Held-write_claimed p e own = record {
      live = h.live;
      named = h.named;
      claimed = Guarded-put d.locks d.claimed p (doc e) h.claimed (λ e' same. ground (arith, own));
    }

    pub Held-write_restoring :
        (p : String) (e : Entry) → Held sha256 (apply (write_restoring p e) d)
    unfolding apply
    Held-write_restoring p e = record { live = h.live; claimed = h.claimed; named = h.named }

    pub Held-remove_claimed : (p : String) → Held sha256 (apply (remove_claimed p) d)
    unfolding apply
    Held-remove_claimed p = record {
      live = h.live;
      named = h.named;
      claimed = Guarded-remove d.locks d.claimed p h.claimed;
    }

    pub Held-rename_claim : (p : String) → Held sha256 (apply (rename_claim p) d)
    unfolding apply
    Held-rename_claim p = elim (Option-cases (lookup p d.live)) [
      | inl gone ↦ rw (gone, apply) h
      | inr (f, there) ↦
          rw (there, apply)
            (record {
              live = Guarded-remove d.locks d.live p h.live;
              named = h.named;
              claimed =
                  Guarded-put d.locks d.claimed p f h.claimed
                    (λ e same. h.live p e (ground (arith, there, same)));
            })
    ]

    pub Held-rename_back : (p : String) → Held sha256 (apply (rename_back p) d)
    unfolding apply
    Held-rename_back p = elim (Option-cases (lookup p d.claimed)) [
      | inl gone ↦ rw (gone, apply) h
      | inr (f, there) ↦
          rw (there, apply)
            (record {
              claimed = Guarded-remove d.locks d.claimed p h.claimed;
              named = h.named;
              live =
                  Guarded-put d.locks d.live p f h.live
                    (λ e same. h.claimed p e (ground (arith, there, same)));
            })
    ]

    pub Held-rename_publish :
        (p : String) (e : Entry)
        → lookup p d.restoring ≡ some (doc e)
        → owner sha256 d.locks e.target_path ≡ some p
        → Held sha256 (apply (rename_publish p) d)
    unfolding apply
    Held-rename_publish p e there own =
        rw (there, apply)
          (record {
            live = Guarded-put d.locks d.live p (doc e) h.live (λ e' same. ground (arith, own));
            claimed = h.claimed;
            named = h.named;
          })

    -- a lock that is not there is nobody's
    pub Held-link_lock :
        (n : String) (l : LockInfo)
        → lookup n d.locks ≡ none
        → ((path : String) → l.target_path ≡ some path → path_lock_filename sha256 path ≡ n)
        → Held sha256 (apply (link_lock n l) d)
    unfolding apply
    Held-link_lock n l free own_name = record {
      named = λ m k path at. named_by_link m k path at;
      live = λ p e at. kept_by_link d.locks n l p e.target_path free (h.live p e at);
      claimed = λ p e at. kept_by_link d.locks n l p e.target_path free (h.claimed p e at);
    }
      where
        named_by_link :
            (m : String) (k : LockInfo) (path : String)
            → lookup m (put n (held l) d.locks) ≡ some (held k)
            → k.target_path ≡ some path
            → path_lock_filename sha256 path ≡ m
        named_by_link m k path at is =
            ground
              (arith, lookup-put n m (held l) d.locks, eq_iff n m, h.named m k path, own_name path)

    -- a lock may go if no entry is protected by it
    pub Held-unlink_lock :
        (n : String)
        → ((p : String) (e : Entry)
            → lookup p d.live ≡ some (doc e)
            → path_lock_filename sha256 e.target_path ≢ n)
        → ((p : String) (e : Entry)
            → lookup p d.claimed ≡ some (doc e)
            → path_lock_filename sha256 e.target_path ≢ n)
        → Held sha256 (apply (unlink_lock n) d)
    unfolding apply
    Held-unlink_lock n fl fc = record {
      named =
          λ m k path at is. ground (arith, lookup-remove n m d.locks, eq_iff n m, h.named m k path);
      live = λ p e at. kept_by_unlink d.locks n p e.target_path (fl p e at) (h.live p e at);
      claimed = λ p e at. kept_by_unlink d.locks n p e.target_path (fc p e at) (h.claimed p e at);
    }
