-- ===== src/Push/Contention.antt =====
-- push_queue.py: the retry budget of a queued commit. `rounds` drains one entry again and again, with
-- what the push does in each round.
use Prim.Native.String.{◌++◌ as str_append}
use data_olympus.Base.{
  ℕ, zero, suc, ◌+◌, ◌≤◌, ◌<◌, String, Bool, true, false, Option, some, List, [], ◌∷◌, ◌≡◌, inl,
  inr, refl, arith, subst, ◌++◌, leb, Bool-cases,
}
use data_olympus.Push.{
  PushEntry, PushOutcome, non_fast_forward, evidence_at_risk, fails, Fate, published, demoted, kept,
  demote, record_retry, after_push, drain_entry, counted,
}

module _ (callback : Option (PushEntry → Bool)) (max_attempts now : ℕ) where
  -- the drain of one entry, where the push does `o`
  abbrev pub round : PushOutcome → PushEntry → Fate
  round o e = drain_entry (λ _. o) callback max_attempts now e

  unfoldable pub rounds : List PushOutcome → PushEntry → Fate
  rounds [] e = kept e
  rounds (o ∷ os) e = elim (round o e) [
    | published ↦ published
    | demoted ↦ demoted
    | kept e' ↦ rounds os e'
  ]

  -- A push that defers to an unresolved claim's evidence costs nothing: the entry stays as it was.
  pub round-deferred : (e : PushEntry) → round evidence_at_risk e ≡ kept e
  unfolding drain_entry after_push
  round-deferred e = ground arith

  -- A frozen entry is left as it is, whatever a push would do.
  pub round-frozen : (o : PushOutcome) (e : PushEntry) → e.frozen ≡ true → round o e ≡ kept e
  unfolding drain_entry
  round-frozen o e f = rw f

  rounds-frozen : (os : List PushOutcome) (e : PushEntry) → e.frozen ≡ true → rounds os e ≡ kept e
  unfolding rounds
  rounds-frozen [] e f = refl
  rounds-frozen (o ∷ os) e f = rw (round-frozen o e f, rounds) (rounds-frozen os e f)

  -- so many lost races in a row
  abbrev pub races : String → ℕ → List PushOutcome
  races detail zero = []
  races detail (suc n) = non_fast_forward detail ∷ races detail n

  -- the entry in the middle of pure contention
  record Contended (k : ℕ) (e : PushEntry) : Type 0 where
    thawed : e.frozen ≡ false
    tried : e.attempts ≡ k
    lost : e.non_ff_attempts ≡ k

  race-Contended :
      (detail : String) (k : ℕ) (e : PushEntry)
      → k < 4
      → 5 ≤ max_attempts
      → Contended k e
      → (e' : PushEntry) × (round (non_fast_forward detail) e ≡ kept e') × Contended (k + 1) e'
  unfolding drain_entry after_push record_retry
  race-Contended detail k e few room c = (
    record_retry now (str_append "non_fast_forward: " detail) (some max_attempts) false (counted e),
    ground arith,
    ground arith,
  )

  race_demotes :
      (detail : String) (e : PushEntry)
      → Contended 4 e
      → ((e' : PushEntry) → demote callback e' ≡ true)
      → round (non_fast_forward detail) e ≡ demoted
  unfolding drain_entry after_push
  race_demotes detail e c takes = ground (arith, takes (counted e))

  races-demote :
      (detail : String) (left k : ℕ) (e : PushEntry)
      → left + k ≡ 4
      → 5 ≤ max_attempts
      → ((e' : PushEntry) → demote callback e' ≡ true)
      → Contended k e
      → rounds (races detail (suc left)) e ≡ demoted
  unfolding rounds
  races-demote detail zero k e sum room takes c =
      let at : k ≡ 4 = omega arith in
      rw (race_demotes detail e (subst (λ n. Contended n e) at c) takes, rounds) refl
  races-demote detail (suc left) k e sum room takes c =
      let (e', is, c') = race-Contended detail k e (omega arith) room c in
      rw (is, rounds) (races-demote detail left (k + 1) e' (omega arith) room takes c')

  -- With at least 5 attempts allowed and a callback that returns, five lost races in a row demote a
  -- fresh entry; it does not freeze on the way.
  pub contention_demotes :
      (detail : String) (e : PushEntry)
      → 5 ≤ max_attempts
      → ((e' : PushEntry) → demote callback e' ≡ true)
      → e.frozen ≡ false
      → e.attempts ≡ 0
      → e.non_ff_attempts ≡ 0
      → rounds (races detail 5) e ≡ demoted
  contention_demotes detail e room takes thawed tried lost =
      races-demote detail 4 0 e (omega arith) room takes
        (record { thawed = thawed; tried = tried; lost = lost })

  -- so many other failures in a row
  abbrev pub failures : String → ℕ → List PushOutcome
  failures message zero = []
  failures message (suc n) = fails message ∷ failures message n

  failure_step :
      (message : String) (e : PushEntry)
      → e.frozen ≡ false
      → (e' : PushEntry) × (round (fails message) e ≡ kept e')
        × (e'.attempts ≡ e.attempts + 1)
        × (e'.frozen ≡ leb max_attempts (e.attempts + 1))
  unfolding drain_entry after_push record_retry
  failure_step message e thawed = (
    record_retry now message (some max_attempts) true e,
    ground arith,
    ground arith,
    ground arith,
  )

  -- Failures that use up the attempts freeze the entry: it stays in the queue, and no later round
  -- changes it.
  pub failures_freeze :
      (message : String) (n : ℕ) (os : List PushOutcome) (e : PushEntry)
      → e.frozen ≡ false
      → max_attempts ≤ e.attempts + suc n
      → (e' : PushEntry) × (e'.frozen ≡ true)
        × (rounds (failures message (suc n) ++ os) e ≡ kept e')
  unfolding rounds
  failures_freeze message zero os e thawed spent =
      let (e', is, _, f) = failure_step message e thawed in
      let frozen : e'.frozen ≡ true = ground arith in
      (e', frozen, rw (is, rounds) (rounds-frozen os e' frozen))
  failures_freeze message (suc n) os e thawed spent =
      let (e', is, used, _) = failure_step message e thawed in
      elim (Bool-cases e'.frozen) [
        | inl frozen ↦
            (e', frozen, rw (is, rounds) (rounds-frozen (failures message (suc n) ++ os) e' frozen))
        | inr still ↦
            let (e'', frozen, stays) = failures_freeze message n os e' still (omega arith) in
            (e'', frozen, rw (is, rounds) stays)
      ]
