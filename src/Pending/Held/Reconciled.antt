-- ===== src/Pending/Held/Reconciled.antt =====
-- pending.py: `reconcile_claims`, the invariant, and the ids that are both live and claimed.
use data_olympus.Base.{
  ℕ, String, Bool, true, false, Option, none, some, List, [], ◌∷◌, ◌++◌, lookup, keys, ◌≡◌, refl,
  ap, sym, ◌∙◌, lookup-put_self, if◌then◌else◌,
}
use data_olympus.Pending.Records.{
  Entry, EntryFile, doc, garbled, denied, WriteOutcome, committed, failed, unknown,
}
use data_olympus.Pending.Disk.{Disk, apply, write_claimed, Result, ok, err, Exec, pure, emit, ◌>>=◌}
use data_olympus.Pending.Ensures.{
  Ensures, Next, Ensures-pure, Ensures-effect, Ensures-gets, Ensures-bind, Ensures-weaken,
  Ensures-both,
}
use data_olympus.Pending.Claim.{token_of, finalize_resolve, restore_resolve}
use data_olympus.Pending.Reconcile.{
  Search, absent, finds, raises, Report, sort_names, digest_by, with_digest, store_migrated,
  by_search, by_outcome, reconcile_one, old_enough, reconcile_old, reconcile_file, reconcile_names,
  reconcile_claims,
}
use data_olympus.Pending.Held.{Held}
use data_olympus.Pending.Held.Fenced.{
  Kept, rewrite-Ensures, finalize_resolve-Ensures, restore_resolve-Ensures,
}
use data_olympus.Pending.Held.Apart.{
  Apart, Any, StaysApart, rewrite-Apart, finalize_resolve-Apart, restore_resolve-Apart,
}

module _ (sha256 : String → String) where
  -- the state between two claims of the sweep
  pub record Sound (d : Disk) : Type 0 where
    pub held : Held sha256 d
    pub apart : Apart d

  abbrev pub StaysSound {ℓ} : {A : Type ℓ} → Result A → Disk → Type 0
  StaysSound r d = Sound d

  sound_of :
      {A : Type 0} (m : Exec A) (d : Disk)
      → Ensures (Held sha256) m (Kept sha256) d
      → Ensures Any m StaysApart d
      → Ensures (Held sha256) m StaysSound d
  sound_of m d h a =
      Ensures-weaken _ m (Ensures-both m h a)
        (λ r d' both. record { held = both.0; apart = both.1 })

  -- a program that keeps the disk sound, and an answer
  answered :
      {B : Type 0} (b : B) (m : Exec (Unit {0})) (d : Disk)
      → Ensures (Held sha256) m StaysSound d
      → Ensures (Held sha256) (m >>= λ _. pure b) StaysSound d
  answered b m d h = Ensures-bind _ _ (Ensures-weaken StaysSound _ h done)
    where
      done :
          (r : Result (Unit {0})) (d' : Disk)
          → Sound d'
          → Next (Held sha256) StaysSound (λ _. pure b) r d'
      done (ok _) d' s = Ensures-pure _ s.held s
      done (err c) d' s = s

  module _ (d : Disk) (s : Sound d) (p : String) (e : Entry)
      (at : lookup p d.claimed ≡ some (doc e)) where
    rewrite-Sound :
        (e' : Entry)
        → e'.target_path ≡ e.target_path
        → Ensures (Held sha256) (emit (write_claimed p e')) StaysSound d
    rewrite-Sound e' same =
        sound_of _ d (rewrite-Ensures sha256 p d s.held e e' at same)
          (rewrite-Apart d s.apart p e' e at)

    finalize-Sound :
        (token : Option String)
        → Ensures (Held sha256) (finalize_resolve sha256 p e.target_path token) StaysSound d
    finalize-Sound token =
        sound_of _ d
          (finalize_resolve-Ensures sha256 p d s.held e.target_path token
            (λ e' here. s.apart.apart p e e' at here))
          (finalize_resolve-Apart sha256 p e.target_path d s.apart token)

    restore-Sound :
        (token : Option String) → Ensures (Held sha256) (restore_resolve p token) StaysSound d
    restore-Sound token =
        sound_of _ d (restore_resolve-Ensures sha256 p d s.held token)
          (restore_resolve-Apart p d s.apart token)

    module _ (find_commit : Entry → Search) (moment : ℕ) where
      by_search-Sound :
          (r : Search)
          → Ensures (Held sha256) (by_search sha256 find_commit moment p e r) StaysSound d
      unfolding by_search
      by_search-Sound (finds true) = answered _ _ d (finalize-Sound (token_of e))
      by_search-Sound (finds false) = answered _ _ d (rewrite-Sound _ refl)
      by_search-Sound absent = answered _ _ d (rewrite-Sound _ refl)
      by_search-Sound (raises m) = answered _ _ d (rewrite-Sound _ refl)

      by_outcome-Sound :
          (o : Option WriteOutcome)
          → Ensures (Held sha256) (by_outcome sha256 find_commit moment p e o) StaysSound d
      unfolding by_outcome
      by_outcome-Sound (some (committed sha)) = answered _ _ d (finalize-Sound (token_of e))
      by_outcome-Sound (some (failed why)) = answered _ _ d (restore-Sound (token_of e))
      by_outcome-Sound (some (unknown why)) = by_search-Sound (find_commit e)
      by_outcome-Sound none = by_search-Sound (find_commit e)

  module _ (find_commit : Entry → Search) (moment : ℕ) where
    reconcile_one-Sound :
        (d : Disk) (p : String) (e : Entry)
        → Sound d
        → lookup p d.claimed ≡ some (doc e)
        → Ensures (Held sha256) (reconcile_one sha256 find_commit moment p e) StaysSound d
    unfolding reconcile_one
    reconcile_one-Sound d p e s at = by_outcome-Sound d s p e at find_commit moment e.write_outcome

    -- the disk is sound, and the claim's file holds the migrated record
    record Migrated (p : String) (e : Entry) (d : Disk) : Type 0 where
      sound : Sound d
      stored : lookup p d.claimed ≡ some (doc (with_digest sha256 e))

    store_migrated-Ensures :
        (d : Disk) (p : String) (e : Entry)
        → Sound d
        → lookup p d.claimed ≡ some (doc e)
        → (o : Option String) → e.effective_postimage ≡ o
        → Ensures (Held sha256) (store_migrated sha256 p o e) (λ _. Migrated p e) d
    unfolding store_migrated
    store_migrated-Ensures d p e s at none is =
        Ensures-pure _ s.held
          (record { sound = s; stored = at ∙ sym (ap (λ o. some (doc (digest_by sha256 o e))) is) })
    store_migrated-Ensures d p e s at (some text) is =
        Ensures-weaken _ _
          (Ensures-both _ (rewrite-Sound d s p e at (with_digest sha256 e) same) (stores d))
          (λ r d' both. record { sound = both.0; stored = both.1 })
      where
        same : (with_digest sha256 e).target_path ≡ e.target_path
        same = rw is refl

        stores :
            (d : Disk)
            → Ensures Any
                (emit (write_claimed p (with_digest sha256 e)))
                (λ _ d'. lookup p d'.claimed ≡ some (doc (with_digest sha256 e)))
                d
        stores d = Ensures-effect _ tt tt (unfold apply in lookup-put_self p _ d.claimed)

    reconcile_old-Sound :
        (d : Disk) (p : String) (e : Entry)
        → Sound d
        → lookup p d.claimed ≡ some (doc e)
        → Ensures (Held sha256) (reconcile_old sha256 find_commit moment p e) StaysSound d
    unfolding reconcile_old
    reconcile_old-Sound d p e s at = Ensures-bind _ _ (
        Ensures-weaken (λ _. Migrated p e) _
          (store_migrated-Ensures d p e s at e.effective_postimage refl) after)
      where
        listed :
            (r : Result Report) (d' : Disk)
            → Sound d'
            → Next (Held sha256) StaysSound (λ report. pure (report ∷ [])) r d'
        listed (ok report) d' s' = Ensures-pure _ s'.held s'
        listed (err c) d' s' = s'

        after :
            (r : Result (Unit {0})) (d' : Disk)
            → Migrated p e d'
            → Next
                (Held sha256)
                StaysSound
                (λ _. reconcile_one sha256 find_commit moment p (with_digest sha256 e) >>= λ report.
                  pure (report ∷ []))
                r
                d'
        after (ok _) d' m = Ensures-bind _ _ (
            Ensures-weaken StaysSound _
              (reconcile_one-Sound d' p (with_digest sha256 e) m.sound m.stored) listed)
        after (err c) d' m = m.sound

    reconcile_file-Sound :
        (min_age_sec : ℕ) (d : Disk) (p : String)
        → Sound d
        → (f : Option EntryFile) → lookup p d.claimed ≡ f
        → Ensures
            (Held sha256)
            (reconcile_file sha256 find_commit moment min_age_sec p f)
            StaysSound
            d
    unfolding reconcile_file
    reconcile_file-Sound age d p s none at = Ensures-pure _ s.held s
    reconcile_file-Sound age d p s (some garbled) at = Ensures-pure _ s.held s
    reconcile_file-Sound age d p s (some denied) at = Ensures-pure _ s.held s
    reconcile_file-Sound age d p s (some (doc e)) at =
        by_age (old_enough sha256 find_commit moment age e)
      where
        by_age :
            (b : Bool)
            → Ensures
                (Held sha256)
                (if b then reconcile_old sha256 find_commit moment p e else pure [])
                StaysSound
                d
        by_age true = reconcile_old-Sound d p e s at
        by_age false = Ensures-pure _ s.held s

    reconcile_names-Sound :
        (min_age_sec : ℕ) (names : List String) (d : Disk)
        → Sound d
        → Ensures
            (Held sha256)
            (reconcile_names sha256 find_commit moment min_age_sec names)
            StaysSound
            d
    unfolding reconcile_names
    reconcile_names-Sound age [] d s = Ensures-pure _ s.held s
    reconcile_names-Sound age (p ∷ names) d s =
        let again = reconcile_names-Sound age names in
        Ensures-gets _ _ (
          Ensures-bind _ _ (
            Ensures-weaken StaysSound _ (reconcile_file-Sound age d p s (lookup p d.claimed) refl)
              (onto again)))
      where
        joined :
            (xs : List Report) (r : Result (List Report)) (d' : Disk)
            → Sound d'
            → Next (Held sha256) StaysSound (λ ys. pure (xs ++ ys)) r d'
        joined xs (ok ys) d' s' = Ensures-pure _ s'.held s'
        joined xs (err c) d' s' = s'

        onto :
            ((d : Disk)
              → Sound d
              → Ensures
                  (Held sha256)
                  (reconcile_names sha256 find_commit moment age names)
                  StaysSound
                  d)
            → (r : Result (List Report)) (d' : Disk) → Sound d'
            → Next
                (Held sha256)
                StaysSound
                (λ xs.
                  reconcile_names sha256 find_commit moment age names >>= λ ys. pure (xs ++ ys))
                r
                d'
        onto again (ok xs) d' s' =
            Ensures-bind _ _ (Ensures-weaken StaysSound _ (again d' s') (joined xs))
        onto again (err c) d' s' = s'

    pub reconcile_claims-Sound :
        (min_age_sec : ℕ) (d : Disk)
        → Sound d
        → Ensures
            (Held sha256)
            (reconcile_claims sha256 find_commit moment min_age_sec)
            StaysSound
            d
    unfolding reconcile_claims
    reconcile_claims-Sound age d s =
        Ensures-gets _ _ (reconcile_names-Sound age (sort_names (keys d.claimed)) d s)
