-- ===== src/Pending/Ensures.antt =====
-- What a program over the disk ensures: `I` on every disk that a crash can leave, and `post` of its
-- result and of the disk after it. There is one rule for each way to build a program.
use data_olympus.Base.{◌≡◌, refl, Bool, true, false, List, [], ◌∷◌, ◌++◌}
use data_olympus.Pending.Records.{Fault}
use data_olympus.Pending.Disk.{
  Disk, Effect, apply, run, Result, ok, err, Exec, pure, raise, gets, emit, guard, onward, ◌>>=◌,
}

-- the disk before each effect and after the last
abbrev pub AllStates {ℓ} : (Disk → Type ℓ) → Disk → List Effect → Type ℓ
AllStates P d [] = P d
AllStates P d (e ∷ es) = P d × AllStates P (apply e d) es

module _ {ℓ} (P : Disk → Type ℓ) where
  AllStates-head : (d : Disk) (es : List Effect) → AllStates P d es → P d
  AllStates-head d [] h = h
  AllStates-head d (e ∷ es) h = h.0

  pub AllStates-append :
      (d : Disk) (es es' : List Effect)
      → AllStates P d es
      → AllStates P (run es d) es'
      → AllStates P d (es ++ es')
  unfolding run
  AllStates-append d [] es' h h' = h'
  AllStates-append d (e ∷ es) es' h h' = (h.0, AllStates-append (apply e d) es es' h.1 h')

pub run-append : (d : Disk) (es es' : List Effect) → run (es ++ es') d ≡ run es' (run es d)
unfolding run
run-append d [] es' = refl
run-append d (e ∷ es) es' = run-append (apply e d) es es'

module _ {ℓ} {A : Type 0} (I : Disk → Type ℓ) where
  pub record Ensures (m : Exec A) (post : Result A → Disk → Type ℓ) (d : Disk) : Type ℓ where
    pub every : AllStates I d (m d).1
    pub ends : post (m d).0 (run (m d).1 d)

module _ {ℓ} {A : Type 0} {I : Disk → Type ℓ} {post : Result A → Disk → Type ℓ} {d : Disk} where
  pub Ensures-pure : (a : A) → I d → post (ok a) d → Ensures I (pure a) post d
  unfolding run pure
  Ensures-pure a i q = record { every = i; ends = q }

  pub Ensures-raise : (c : Fault) → I d → post (err c) d → Ensures I (raise c) post d
  unfolding run raise
  Ensures-raise c i q = record { every = i; ends = q }

  pub Ensures-emit :
      (e : Effect) (k : Exec A)
      → I d
      → Ensures I k post (apply e d)
      → Ensures I (emit e >>= λ _. k) post d
  unfolding run emit ◌>>=◌
  Ensures-emit e k i h = record { every = (i, h.every); ends = h.ends }

  pub Ensures-guard :
      (b : Bool) (c : Fault) (k : Exec A)
      → I d
      → (b ≡ false → post (err c) d)
      → (b ≡ true → Ensures I k post d)
      → Ensures I (guard b c >>= λ _. k) post d
  unfolding run guard ◌>>=◌
  Ensures-guard true c k i q h = record { every = (h refl).every; ends = (h refl).ends }
  Ensures-guard false c k i q h = record { every = i; ends = q refl }

  module _ {B : Type 0} where
    pub Ensures-gets :
        (g : Disk → B) (f : B → Exec A)
        → Ensures I (f (g d)) post d
        → Ensures I (gets g >>= f) post d
    unfolding run gets ◌>>=◌
    Ensures-gets g f h = record { every = h.every; ends = h.ends }

-- what a later program must ensure, if the first one returned
abbrev pub Next {ℓ} :
    {A B : Type 0} (I : Disk → Type ℓ) (post : Result A → Disk → Type ℓ)
    → (B → Exec A)
    → Result B
    → Disk
    → Type ℓ
Next I post f (ok b) d = Ensures I (f b) post d
Next I post f (err c) d = post (err c) d

module _ {ℓ} {A B : Type 0} (I : Disk → Type ℓ) (post : Result A → Disk → Type ℓ) where
  onward-Ensures :
      (r : Result B) (es : List Effect) (f : B → Exec A) (d : Disk)
      → AllStates I d es
      → Next I post f r (run es d)
      → AllStates I d (onward r es f d).1 × post (onward r es f d).0 (run (onward r es f d).1 d)
  unfolding onward
  onward-Ensures (ok b) es f d h k = (AllStates-append I d es _ h k.every, rw run-append k.ends)
  onward-Ensures (err c) es f d h k = (h, k)

module _ {ℓ} {A B : Type 0} {I : Disk → Type ℓ} {post : Result A → Disk → Type ℓ} {d : Disk} where
  pub Ensures-bind :
      (m : Exec B) (f : B → Exec A) → Ensures I m (Next I post f) d → Ensures I (m >>= f) post d
  unfolding ◌>>=◌
  Ensures-bind m f h =
      let both = onward-Ensures I post (m d).0 (m d).1 f d h.every h.ends in
      record { every = both.0; ends = both.1 }

module _ {ℓ} {A : Type 0} {I : Disk → Type ℓ} {post' : Result A → Disk → Type ℓ} {d : Disk} where
  -- a weaker claim about the end
  pub Ensures-weaken :
      (post : Result A → Disk → Type ℓ) (m : Exec A)
      → Ensures I m post d
      → ((r : Result A) (d' : Disk) → post r d' → post' r d')
      → Ensures I m post' d
  Ensures-weaken post m h w = record { every = h.every; ends = w _ _ h.ends }

module _ {ℓ} {I : Disk → Type ℓ} {post : Result (Unit {0}) → Disk → Type ℓ} {d : Disk} where
  pub Ensures-effect :
      (e : Effect) → I d → I (apply e d) → post (ok tt) (apply e d) → Ensures I (emit e) post d
  unfolding run emit
  Ensures-effect e i i' q = record { every = (i, i'); ends = q }

-- a first program that only reads
module _ {ℓ} {A B : Type 0} {I : Disk → Type ℓ} {post : Result A → Disk → Type ℓ} {d : Disk} where
  pub Ensures-returned :
      (m : Exec B) (f : B → Exec A) (b : B)
      → m d ≡ (ok b, [])
      → Ensures I (f b) post d
      → Ensures I (m >>= f) post d
  unfolding ◌>>=◌ run
  Ensures-returned m f b e h = record { every = rw (e, ◌>>=◌) h.every; ends = rw (e, ◌>>=◌) h.ends }

  pub Ensures-raised :
      (m : Exec B) (f : B → Exec A) (c : Fault)
      → m d ≡ (err c, [])
      → I d
      → post (err c) d
      → Ensures I (m >>= f) post d
  unfolding ◌>>=◌ run
  Ensures-raised m f c e i q = record { every = rw (e, ◌>>=◌) i; ends = rw (e, ◌>>=◌) q }

module _ {ℓ} {A : Type 0} {I J : Disk → Type ℓ} {post post' : Result A → Disk → Type ℓ}
    {d : Disk} where
  -- two claims about the end, each proved with its own invariant; the first invariant stays
  pub Ensures-both :
      (m : Exec A)
      → Ensures I m post d
      → Ensures J m post' d
      → Ensures I m (λ r d'. post r d' × post' r d') d
  Ensures-both m h k = record { every = h.every; ends = (h.ends, k.ends) }
