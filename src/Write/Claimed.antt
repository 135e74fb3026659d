-- ===== src/Write/Claimed.antt =====
-- tools_write.py: the claim of the entry during a resolution.
use data_olympus.Base.{
  String, Bool, true, false, Bool-cases, Option, none, some, List, [], ◌∷◌, remove, lookup, ◌≡◌,
  refl, sym, ap, ◌∙◌, ◌≢◌, inl, inr, arith, lookup-put_self, eq_refl,
}
use data_olympus.Pending.Records.{EntryFile, doc, garbled, denied, Entry, is_pending_id}
use data_olympus.Pending.Disk.{
  Disk, Effect, write_claimed, rename_claim, apply, run, ok, Exec, pure, raise, gets, emit, guard,
  onward, ◌>>=◌, final,
}
use data_olympus.Pending.Claim.{
  Resolved, claim, rename_to_claimed, load_sidecar, stamped, sidecar, read_claim, token_matches,
  check_token, fenced, record_write_context, record_outcome, outcome_of, store_outcome, as_enqueued,
  store_digest, claim_for_resolve, to_resolved,
}
use data_olympus.Pending.Survival.{claim_runs}
use data_olympus.Write.Answers.{Outcome, outcome_committed, outcome_failed, outcome_unknown, Tree}
use data_olympus.Write.Decision.{ResolveRequest, ResolveChecks}
use data_olympus.Write.Resolve.{context_call, outcome_call, noted_disk}

-- `d` has the claim of the entry `e` under the token, and its live entries and locks are those of
-- `before`
pub record Holds (p token : String) (e : Entry) (before d : Disk) : Type 0 where
  pub entry : Entry
  pub at : lookup p d.claimed ≡ some (doc entry)
  pub same : as_enqueued entry ≡ as_enqueued e
  pub owns : token_matches (some token) entry ≡ true
  pub live : d.live ≡ before.live
  pub locks : d.locks ≡ before.locks

module _ (p token : String) (e : Entry) (before : Disk) where
  -- a fenced write to the claim
  write_Holds :
      (f : Entry → Entry) (d : Disk)
      → ((c : Entry) → as_enqueued (f c) ≡ as_enqueued c)
      → ((c : Entry) → token_matches (some token) (f c) ≡ token_matches (some token) c)
      → Holds p token e before d
      → Holds p token e before
          (final (fenced p (some token) >>= λ c. emit (write_claimed p (f c))) d)
  unfolding run apply
  write_Holds f d keeps names h = rw runs record {
    entry = f h.entry;
    at = lookup-put_self p (doc (f h.entry)) d.claimed;
    same = keeps h.entry ∙ h.same;
    owns = names h.entry ∙ h.owns;
    live = h.live;
    locks = h.locks;
  }
    where
      runs :
          (fenced p (some token) >>= λ c. emit (write_claimed p (f c))) d
          ≡ (ok tt, write_claimed p (f h.entry) ∷ [])
      runs =
          unfold fenced read_claim sidecar check_token ◌>>=◌ onward gets pure guard emit run in
          ground (arith, h.at, h.owns)

  module _ (k : ResolveChecks) (r : ResolveRequest) (c : Resolved) (asks : r.pending_id ≡ p)
      (fits : c.claim_token ≡ token) where
    context_Holds :
        (b : Bool) (d : Disk)
        → Holds p token e before d
        → Holds p token e before (final (context_call k r c b) d)
    unfolding context_call record_write_context pure run
    context_Holds true d h = rw (asks, fits) (write_Holds _ d (λ c. refl) (λ c. refl) h)
    context_Holds false d h = h

    outcome_Holds :
        (o : Option Outcome) (d : Disk)
        → Holds p token e before d
        → Holds p token e before (final (outcome_call k r c o) d)
    unfolding outcome_call record_outcome outcome_of store_outcome pure run
    outcome_Holds none d h = h
    outcome_Holds (some (outcome_committed sha)) d h =
        rw (asks, fits) (write_Holds _ d (λ c. refl) (λ c. refl) h)
    outcome_Holds (some outcome_failed) d h =
        rw (asks, fits) (write_Holds _ d (λ c. refl) (λ c. refl) h)
    outcome_Holds (some outcome_unknown) d h =
        rw (asks, fits) (write_Holds _ d (λ c. refl) (λ c. refl) h)

    pub noted_disk-Holds :
        (t : Tree) (d : Disk)
        → Holds p token e before d
        → Holds p token e before (noted_disk k r c t d)
    noted_disk-Holds t d h = outcome_Holds t.recorded _ (context_Holds t.has_context d h)

module _ (k : ResolveChecks) (p : String) (text : Option String) (d : Disk) where
  -- the claim, and what it returns
  abbrev pub claiming : Exec Resolved
  claiming = claim_for_resolve k.sha256 p text k.token k.now

  -- the disk without the live entry
  abbrev pub without : Disk
  without = record d { live = remove p d.live }

  abbrev pub resolved_of : Entry → Resolved
  resolved_of e = to_resolved p (stamped k.token k.now e) text

  -- The claim takes a readable live entry with a valid id.
  pub record Takes (e : Entry) : Type 0 where
    pub was_live : lookup p d.live ≡ some (doc e)
    pub returns : (claiming d).0 ≡ ok (resolved_of e)
    pub holds : Holds p k.token e without (final claiming d)

  abbrev digested : Option String → Entry → Entry
  digested none e = e
  digested (some t) e = record e { effective_postimage_sha256 = some (k.sha256 t) }

  abbrev digest_effects : Option String → Entry → List Effect
  digest_effects none e = []
  digest_effects (some t) e = write_claimed p (digested (some t) e) ∷ []

  claiming_runs :
      (e : Entry) (x : Option String)
      → is_pending_id p ≡ true
      → lookup p d.live ≡ some (doc e)
      → claim_for_resolve k.sha256 p x k.token k.now d ≡ (
        ok (to_resolved p (stamped k.token k.now e) x),
        rename_claim p
            ∷ write_claimed p (stamped k.token k.now e)
            ∷ digest_effects x (stamped k.token k.now e),
      )
  unfolding claim_for_resolve store_digest ◌>>=◌ onward pure emit
  claiming_runs e none valid at = rw (claim_runs p d e k.token k.now valid at) refl
  claiming_runs e (some t) valid at = rw (claim_runs p d e k.token k.now valid at) refl

  claiming_claimed :
      (e : Entry) (x : Option String)
      → lookup p d.live ≡ some (doc e)
      → Holds p k.token e without (
          run
            (rename_claim p
              ∷ write_claimed p (stamped k.token k.now e)
              ∷ digest_effects x (stamped k.token k.now e))
            d)
  unfolding run apply
  claiming_claimed e none at =
      rw (at, apply)
        record {
          entry = stamped k.token k.now e;
          at = lookup-put_self p _ _;
          same = refl;
          owns = eq_refl k.token;
          live = refl;
          locks = refl;
        }
  claiming_claimed e (some t) at =
      rw (at, apply)
        record {
          entry = digested (some t) (stamped k.token k.now e);
          at = lookup-put_self p _ _;
          same = refl;
          owns = eq_refl k.token;
          live = refl;
          locks = refl;
        }

  pub takes : (e : Entry) → is_pending_id p ≡ true → lookup p d.live ≡ some (doc e) → Takes e
  takes e valid at = record {
    was_live = at;
    returns = ap (λ x. x.0) (claiming_runs e text valid at);
    holds = rw (claiming_runs e text valid at) (claiming_claimed e text at);
  }

  claim_stops :
      (file : Option EntryFile)
      → lookup p d.live ≡ file
      → ((e : Entry) → file ≢ some (doc e))
      → (c : Resolved) → (claiming d).0 ≢ ok c
  unfolding claim_for_resolve claim rename_to_claimed load_sidecar ◌>>=◌ onward gets pure raise
      guard emit run apply
  claim_stops none at other c h = ground (arith, at, h)
  claim_stops (some (doc e)) at other c h = absurd (other e refl)
  claim_stops (some garbled) at other c h =
      ground (arith, at, h, lookup-put_self p garbled d.claimed)
  claim_stops (some denied) at other c h = ground (arith, at, h, lookup-put_self p denied d.claimed)

  claim_invalid : is_pending_id p ≡ false → (c : Resolved) → (claiming d).0 ≢ ok c
  unfolding claim_for_resolve claim ◌>>=◌ onward guard
  claim_invalid invalid c h = ground (arith, invalid, h)

  ok_inj : {c c' : Resolved} → ok c ≡ ok c' → c ≡ c'
  ok_inj h = cc

  -- a claim that returns has taken an entry
  pub taken : (c : Resolved) → (claiming d).0 ≡ ok c → (e : Entry) × Takes e × (c ≡ resolved_of e)
  taken c h = elim (Bool-cases (is_pending_id p)) [
    | inl valid ↦ by_file valid (lookup p d.live) refl
    | inr invalid ↦ absurd (claim_invalid invalid c h)
  ]
    where
      by_file :
          is_pending_id p ≡ true
          → (file : Option EntryFile) → lookup p d.live ≡ file
          → (e : Entry) × Takes e × (c ≡ resolved_of e)
      by_file valid (some (doc e)) at =
          (e, takes e valid at, ok_inj (sym h ∙ (takes e valid at).returns))
      by_file valid none at = absurd (claim_stops none at (λ e h. cc) c h)
      by_file valid (some garbled) at = absurd (claim_stops (some garbled) at (λ e h. cc) c h)
      by_file valid (some denied) at = absurd (claim_stops (some denied) at (λ e h. cc) c h)
