-- ===== src/Io/Exec/Yields.antt =====
-- What code that changes a state has established when it succeeds.
use p2pft.Prelude.{String, Bool, true, false, ◌≡◌, if◌then◌else◌}
use mathlib.Core.Path.{subst}
use p2pft.Io.Result.{Error, Result, ok, err, annotated}
use p2pft.Io.Exec.{Exec, raise, annotate, follow, ◌>>=◌}
use p2pft.Io.Exec.Keeps.{Keeps}

abbrev pub Established : {S A : Type 0} → (A → S → Type 0) → Result A × S → Type 0
Established Q (ok a, t) = Q a t
Established Q (err e, t) = Unit

-- From a state of `P`, a success of `m` leaves a value and a state of `Q`.
pub record Yields {S A : Type 0} (P : S → Type 0) (m : Exec S A) (Q : A → S → Type 0) : Type 0 where
  pub at : (s : S) → P s → Established Q (m s)

module _ {S A : Type 0} {P : S → Type 0} where
  pub Yields-of-Keeps : (m : Exec S A) → Keeps P m → Yields P m (λ _. P)
  Yields-of-Keeps m k = record { at = λ s h. both (m s) (k.at s h) }
    where
      both : (r : Result A × S) → P r.1 → Established (λ _. P) r
      both (ok a, t) h = h
      both (err e, t) h = tt

  pub Yields-raise : {Q : A → S → Type 0} → (e : Error) → Yields P (raise e) Q
  Yields-raise e = record { at = λ s h. tt }

  pub Yields-annotate :
      {Q : A → S → Type 0}
      → (msg : String) (m : Exec S A) → Yields P m Q
      → Yields P (annotate msg m) Q
  Yields-annotate {Q} msg m k = record { at = λ s h. both (m s) (k.at s h) }
    where
      both : (r : Result A × S) → Established Q r → Established Q (annotated msg r.0, r.1)
      both (ok a, t) h = h
      both (err e, t) h = tt

  pub Yields-if :
      {Q : A → S → Type 0}
      → (b : Bool) (m n : Exec S A) → Yields P m Q
      → Yields P n Q
      → Yields P (if b then m else n) Q
  Yields-if true m n km kn = km
  Yields-if false m n km kn = kn

  pub Yields-ok :
      {Q : A → S → Type 0}
      → (m : Exec S A) → Yields P m Q
      → {s t : S} {a : A} → P s
      → m s ≡ (ok a, t)
      → Q a t
  Yields-ok {Q} m k {s} {t} {a} h e = subst (λ r. Established Q r) e (k.at s h)

module _ {S A B : Type 0} {P : S → Type 0} {Q : A → S → Type 0} {R : B → S → Type 0} where
  pub Yields-bind :
      (m : Exec S A) (f : A → Exec S B)
      → Yields P m Q
      → ((a : A) → Yields (Q a) (f a) R)
      → Yields P (m >>= f) R
  Yields-bind m f km kf = record { at = λ s h. both (m s) (km.at s h) }
    where
      both : (r : Result A × S) → Established Q r → Established R (follow r.0 f r.1)
      both (ok a, t) h = (kf a).at t h
      both (err e, t) h = tt
