-- ===== src/Push/Survival.antt =====
-- push_queue.py: what becomes of one queued commit in a `drain`.
use Prim.Native.String.{◌++◌}
use data_olympus.Base.{
  ℕ, String, Bool, true, false, &&-true, ◌&&◌, ◌∙◌, subst, ◌+◌, Option, none, some, List, [], ◌∷◌,
  Dict, lookup, put, keys, ◌≡◌, ◌⊎◌, inl, inr, refl, arith, eq_iff, lookup-put, lookup-remove,
  str_eq-cases, leb, if◌then◌else◌, ◌==◌,
}
use data_olympus.Pending.Reconcile.{sort_names}
use data_olympus.Push.{
  PushEntry, QueueFile, queued, garbled, PushOutcome, pushed, rebase_conflict, non_fast_forward,
  evidence_at_risk, fails, Fate, published, demoted, kept, demote, record_retry, after_push,
  drain_entry, counted, non_ff_demote_after, settle, drain_names, drain,
}

module _ (push_fn : String → PushOutcome) (callback : Option (PushEntry → Bool))
    (max_attempts now : ℕ) where
  -- the entry is that of this commit: its sha and its worktree
  abbrev pub IsOf : String → String → PushEntry → Type 0
  IsOf sha worktree_path e = (e.sha ≡ sha) × (e.worktree_path ≡ worktree_path)

  -- the callback took an entry of this commit
  abbrev pub WasDemoted : String → String → Type 0
  WasDemoted sha worktree_path =
      (e : PushEntry) × IsOf sha worktree_path e × (demote callback e ≡ true)

  abbrev pub StaysQueued : String → String → String → Dict QueueFile → Type 0
  StaysQueued name sha worktree_path q =
      (e : PushEntry) × (lookup name q ≡ some (queued e)) × IsOf sha worktree_path e

  abbrev pub Accounted : String → String → String → Dict QueueFile → Type 0
  Accounted name sha worktree_path q =
      StaysQueued name sha worktree_path q
      ⊎ ((push_fn worktree_path ≡ pushed) ⊎ WasDemoted sha worktree_path)

  abbrev Fated : PushEntry → Fate → Type 0
  Fated e published = push_fn e.worktree_path ≡ pushed
  Fated e demoted = WasDemoted e.sha e.worktree_path
  Fated e (kept e') = IsOf e.sha e.worktree_path e'

  -- a test that stands before a demotion
  by_demotion :
      (e e' : PushEntry) (b : Bool) (f : Fate)
      → (b ≡ true → WasDemoted e.sha e.worktree_path)
      → Fated e f
      → Fated e (if b then demoted else f)
  by_demotion e e' true f took stays = took refl
  by_demotion e e' false f took stays = stays

  after_push-Fated :
      (e : PushEntry) (o : PushOutcome)
      → push_fn e.worktree_path ≡ o
      → Fated e (after_push push_fn callback max_attempts now e o)
  unfolding after_push record_retry
  after_push-Fated e pushed is = is
  after_push-Fated e (rebase_conflict detail) is =
      by_demotion e e (demote callback e) _ (λ took. (e, (refl, refl), took)) (refl, refl)
  after_push-Fated e (non_fast_forward detail) is =
      by_demotion e e
        (leb non_ff_demote_after (e.non_ff_attempts + 1) && demote callback (counted e))
        (kept
          (record_retry now ("non_fast_forward: " ++ detail) (some max_attempts) false (counted e)))
        (λ took. (counted e, (refl, refl), (&&-true _ (demote callback (counted e)) took).1))
        (refl, refl)
  after_push-Fated e evidence_at_risk is = (refl, refl)
  after_push-Fated e (fails message) is = (refl, refl)

  drain_entry-Fated : (e : PushEntry) → Fated e (drain_entry push_fn callback max_attempts now e)
  unfolding drain_entry
  drain_entry-Fated e = by_frozen e.frozen
    where
      by_frozen :
          (b : Bool)
          → Fated e (
              if b
              then kept e
              else after_push push_fn callback max_attempts now e (push_fn e.worktree_path))
      by_frozen true = (refl, refl)
      by_frozen false = after_push-Fated e (push_fn e.worktree_path) refl

  -- one step of the loop keeps account of every entry
  settle-Accounted :
      (name : String) (e : PushEntry) (f : Fate) (q : Dict QueueFile)
      → lookup name q ≡ some (queued e)
      → Fated e f
      → (k c w : String) → StaysQueued k c w q
      → Accounted k c w (settle push_fn callback max_attempts now name f q)
  unfolding settle
  settle-Accounted name e f q at fate k c w (e₀, here, is) = elim (str_eq-cases name k) [
    | inl same ↦ own f same fate (ground (arith, at, here, same))
    | inr (other, test) ↦ inl (others f test)
  ]
    where
      stored : (e' : PushEntry) → name ≡ k → lookup k (put name (queued e') q) ≡ some (queued e')
      stored e' same = ground (arith, lookup-put name k (queued e') q, eq_iff name k)

      own :
          (f : Fate)
          → name ≡ k
          → Fated e f
          → IsOf c w e
          → Accounted k c w (settle push_fn callback max_attempts now name f q)
      own published same fate (sha_is, tree_is) =
          inr (inl (subst (λ x. push_fn x ≡ pushed) tree_is fate))
      own demoted same (e', (its_sha, its_tree), took) (sha_is, tree_is) =
          inr (inr (e', (its_sha ∙ sha_is, its_tree ∙ tree_is), took))
      own (kept e') same (its_sha, its_tree) (sha_is, tree_is) =
          inl (e', stored e' same, (its_sha ∙ sha_is, its_tree ∙ tree_is))

      others :
          (f : Fate)
          → (name == k) ≡ false
          → StaysQueued k c w (settle push_fn callback max_attempts now name f q)
      others published test = (e₀, ground (arith, lookup-remove name k q), is)
      others demoted test = (e₀, ground (arith, lookup-remove name k q), is)
      others (kept e') test = (e₀, ground (arith, lookup-put name k (queued e') q), is)

  drain_names-Accounted :
      (names : List String) (q : Dict QueueFile) (k c w : String)
      → StaysQueued k c w q
      → Accounted k c w (drain_names push_fn callback max_attempts now names q).1
  unfolding drain_names
  drain_names-Accounted [] q k c w h = inl h
  drain_names-Accounted (name ∷ names) q k c w h =
      by_file (drain_names-Accounted names) (lookup name q) refl
    where
      by_file :
          ((q : Dict QueueFile) (k c w : String)
            → StaysQueued k c w q
            → Accounted k c w (drain_names push_fn callback max_attempts now names q).1)
          → (o : Option QueueFile) → lookup name q ≡ o
          → Accounted k c w (drain_names push_fn callback max_attempts now (name ∷ names) q).1
      by_file rest none at = rw (at, drain_names) (rest q k c w h)
      by_file rest (some garbled) at = rw (at, drain_names) (inl h)
      by_file rest (some (queued e)) at =
          rw (at, drain_names)
            (elim (settle-Accounted name e _ q at (drain_entry-Fated e) k c w h) [
              | inl stays ↦ rest _ k c w stays
              | inr gone ↦ inr gone
            ])

  -- No drain loses a commit: a queued commit is still queued afterwards, under its name and with its
  -- sha and its worktree, or the push from its worktree succeeded, or the demotion callback returned
  -- for an entry with its sha and its worktree.
  pub drain-Accounted :
      (q : Dict QueueFile) (k : String) (e : PushEntry)
      → lookup k q ≡ some (queued e)
      → Accounted k e.sha e.worktree_path (drain push_fn callback max_attempts now q).1
  unfolding drain
  drain-Accounted q k e at =
      drain_names-Accounted (sort_names (keys q)) q k e.sha e.worktree_path (e, at, (refl, refl))
