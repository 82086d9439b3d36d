-- ===== src/Io/Exec.antt =====
-- Code that changes a state and returns `(value, error)`. What was done before an error stays done.
pub mod Keeps
pub mod Yields
pub mod Ends
pub mod Only
use p2pft.Prelude.{String, ◌≡◌, refl, sym, arith}
use mathlib.Core.Path.{subst}
use p2pft.Io.Result.{Error, Result, ok, err, annotated}

abbrev pub Exec {ℓ} : Type ℓ → Type ℓ → Type ℓ
Exec S A = S → Result A × S

module _ {ℓ} {S A : Type ℓ} where
  abbrev pub pure : A → Exec S A
  pure a s = (ok a, s)

  abbrev pub raise : Error → Exec S A
  raise e s = (err e, s)

  abbrev pub lift : Result A → Exec S A
  lift r s = (r, s)

  -- `fmt.Errorf("message: %w", err)` on the error path
  abbrev pub annotate : String → Exec S A → Exec S A
  annotate msg m s = (annotated msg (m s).0, (m s).1)

  -- The `(value, error)` pair itself, for code that inspects the error.
  abbrev pub attempt : Exec S A → Exec S (Result A)
  attempt m s = (ok (m s).0, (m s).1)

module _ {ℓ} {S A B : Type ℓ} where
  abbrev pub follow : Result A → (A → Exec S B) → Exec S B
  follow (ok a) f s = f a s
  follow (err e) f s = (err e, s)

  infixl 5 ◌>>=◌ ◌>>◌
  abbrev pub ◌>>=◌ : Exec S A → (A → Exec S B) → Exec S B
  ◌>>=◌ m f s = follow (m s).0 f (m s).1

  abbrev pub ◌>>◌ : Exec S A → Exec S B → Exec S B
  m >> n = m >>= λ _. n

  -- One step of a block whose first part is known to succeed.
  pub bind-ok :
      (m : Exec S A) (f : A → Exec S B) {s t : S} {a : A} → m s ≡ (ok a, t) → (m >>= f) s ≡ f a t
  bind-ok m f {s} {t} {a} h = subst (λ r. follow r.0 f r.1 ≡ f a t) (sym h) refl

  pub bind-err :
      (m : Exec S A) (f : A → Exec S B) {s t : S} {e : Error}
      → m s ≡ (err e, t)
      → (m >>= f) s ≡ (err e, t)
  bind-err m f {s} {t} {e} h =
      subst (λ (r : Result A × S). follow r.0 f r.1 ≡ (err e, t)) (sym h) refl

  -- A block that succeeds has a first part that succeeds.
  pub bind-eq-ok :
      (m : Exec S A) (f : A → Exec S B) (s : S) {t : S} {b : B}
      → (m >>= f) s ≡ (ok b, t)
      → (a : A) × (s' : S) × (m s ≡ (ok a, s')) × (f a s' ≡ (ok b, t))
  bind-eq-ok m f s {t} {b} h = split (m s) refl h
    where
      split :
          (r : Result A × S)
          → m s ≡ r
          → follow r.0 f r.1 ≡ (ok b, t)
          → (a : A) × (s' : S) × (m s ≡ (ok a, s')) × (f a s' ≡ (ok b, t))
      split (ok a, s') e k = (a, s', e, k)
      split (err z, s') e k = cc k

module _ {ℓ} {S A : Type ℓ} where
  pub annotate-eq-ok :
      (msg : String) (m : Exec S A) (s : S) {t : S} {a : A}
      → annotate msg m s ≡ (ok a, t)
      → m s ≡ (ok a, t)
  annotate-eq-ok msg m s h = ground arith
