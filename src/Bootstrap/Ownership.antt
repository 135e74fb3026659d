-- ===== src/Bootstrap/Ownership.antt =====
-- onboarding_inflight.py: the calls of one slot by several claimers.
use data_olympus.Base.{
  ℕ, String, ◌+◌, ◌≤◌, ◌<◌, Bool, true, false, not, Option, none, some, List, [], ◌∷◌, Dict, lookup,
  ◌≡◌, ◌≢◌, inl, inr, refl, arith, eq_iff, lookup-put_self, eq_refl, Option-cases,
}
use data_olympus.Bootstrap.{
  Marker, MarkerFile, marker, unreadable, read_marker, is_expired, claim, release,
}

-- The calls of one slot by any claimers, each at its time.
pub data Request : Type 0 where
  claims : String → ℕ → Request
  releases : String → ℕ → Request

module _ (ttl_seconds : ℕ) (slot : String) where
  unfoldable pub handle : Request → Dict MarkerFile → Dict MarkerFile
  handle (claims token now) d = (claim ttl_seconds slot token now d).1
  handle (releases token now) d = (release slot token d).1

  unfoldable pub handle_all : List Request → Dict MarkerFile → Dict MarkerFile
  handle_all [] d = d
  handle_all (r ∷ rs) d = handle_all rs (handle r d)

  -- the slot is held by `token`, and its claim has not expired at `now`
  record HeldBy (token : String) (until : ℕ) (d : Dict MarkerFile) : Type 0 where
    stored :
        (m : Marker) × (lookup slot d ≡ some (marker m))
        × (m.token ≡ some token)
        × (m.expires_at ≡ some until)

  -- The calls come before the expiry, and no release carries the holder's token.
  abbrev pub Undisturbing : String → ℕ → List Request → Type 0
  Undisturbing token until [] = Unit
  Undisturbing token until (claims other now ∷ rs) = (now < until) × Undisturbing token until rs
  Undisturbing token until (releases other now ∷ rs) = (other ≢ token) × Undisturbing token until rs

  handle-HeldBy :
      (token : String) (until : ℕ) (r : Request) (d : Dict MarkerFile)
      → HeldBy token until d
      → Undisturbing token until (r ∷ [])
      → handle r d ≡ d
  unfolding handle claim release read_marker is_expired
  handle-HeldBy token until (claims other now) d h u =
      let (m, at, t, e) = h.stored in ground (arith, at, e)
  handle-HeldBy token until (releases other now) d h u =
      let (m, at, t, e) = h.stored in ground (arith, at, t, eq_iff token other, u.0)

  handle_all-HeldBy :
      (token : String) (until : ℕ) (rs : List Request) (d : Dict MarkerFile)
      → HeldBy token until d
      → Undisturbing token until rs
      → handle_all rs d ≡ d
  unfolding handle_all
  handle_all-HeldBy token until [] d h u = refl
  handle_all-HeldBy token until (claims other now ∷ rs) d h u =
      rw (handle-HeldBy token until (claims other now) d h (u.0, tt))
        (handle_all-HeldBy token until rs d h u.1)
  handle_all-HeldBy token until (releases other now ∷ rs) d h u =
      rw (handle-HeldBy token until (releases other now) d h (u.0, tt))
        (handle_all-HeldBy token until rs d h u.1)

  claim-HeldBy :
      (token : String) (now : ℕ) (d : Dict MarkerFile)
      → (claim ttl_seconds slot token now d).0 ≡ some token
      → HeldBy token (now + ttl_seconds) (claim ttl_seconds slot token now d).1
  claim-HeldBy token now d won = record {
    stored = (
      record { claimed_at = some now; expires_at = some (now + ttl_seconds); token = some token },
      written (not (is_expired now (read_marker slot d))) refl won,
      refl,
      refl,
    );
  }
    where
      m : Marker
      m = record {
        claimed_at = some now;
        expires_at = some (now + ttl_seconds);
        token = some token;
      }

      written :
          (b : Bool)
          → not (is_expired now (read_marker slot d)) ≡ b
          → (claim ttl_seconds slot token now d).0 ≡ some token
          → lookup slot (claim ttl_seconds slot token now d).1 ≡ some (marker m)
      written true is won = let bad : ⊥ = unfold claim in ground (arith, is) in absurd bad
      written false is won = unfold claim in rw is (lookup-put_self slot (marker m) d)

  -- A claim that won keeps its slot: whatever others claim before its expiry and release with other
  -- tokens, the markers stay as the claim left them, and then a claim before the expiry is refused
  -- and the release with its own token succeeds.
  pub claim_keeps :
      (token other : String) (now later : ℕ) (rs : List Request) (d : Dict MarkerFile)
      → (claim ttl_seconds slot token now d).0 ≡ some token
      → Undisturbing token (now + ttl_seconds) rs
      → later < now + ttl_seconds
      → let after = handle_all rs (claim ttl_seconds slot token now d).1 in
        (after ≡ (claim ttl_seconds slot token now d).1)
        × ((claim ttl_seconds slot other later after).0 ≡ none)
        × ((release slot token after).0 ≡ true)
  claim_keeps token other now later rs d won u soon = (
    same,
    rw same (refused (claim ttl_seconds slot token now d).1 held),
    rw same (released (claim ttl_seconds slot token now d).1 held),
  )
    where
      held : HeldBy token (now + ttl_seconds) (claim ttl_seconds slot token now d).1
      held = claim-HeldBy token now d won

      same :
          handle_all rs (claim ttl_seconds slot token now d).1
          ≡ (claim ttl_seconds slot token now d).1
      same = handle_all-HeldBy token (now + ttl_seconds) rs _ held u

      refused :
          (d : Dict MarkerFile)
          → HeldBy token (now + ttl_seconds) d
          → (claim ttl_seconds slot other later d).0 ≡ none
      refused d h =
          let (m, at, t, e) = h.stored in
          unfold claim read_marker is_expired in ground (arith, at, e)

      released :
          (d : Dict MarkerFile)
          → HeldBy token (now + ttl_seconds) d
          → (release slot token d).0 ≡ true
      released d h =
          let (m, at, t, e) = h.stored in
          unfold release read_marker in ground (arith, at, t, eq_refl token)

  -- A marker never wedges its slot: at its expiry at the latest, and at once if it is missing, is no
  -- JSON object or records no expiry, a claim wins.
  claim_reclaims :
      (token : String) (now : ℕ) (d : Dict MarkerFile)
      → ((m : Marker) (until : ℕ)
          → lookup slot d ≡ some (marker m)
          → m.expires_at ≡ some until
          → until ≤ now)
      → (claim ttl_seconds slot token now d).0 ≡ some token
  unfolding claim read_marker
  claim_reclaims token now d past = by_file (lookup slot d) refl
    where
      by_file :
          (f : Option MarkerFile)
          → lookup slot d ≡ f
          → (claim ttl_seconds slot token now d).0 ≡ some token
      by_file none at = unfold is_expired in ground (arith, at)
      by_file (some unreadable) at = unfold is_expired in ground (arith, at)
      by_file (some (marker m)) at = elim (Option-cases m.expires_at) [
        | inl none_kept ↦ unfold is_expired in ground (arith, at, none_kept)
        | inr (until, e) ↦ unfold is_expired in ground (arith, at, e, past m until at e)
      ]
