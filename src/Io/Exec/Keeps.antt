-- ===== src/Io/Exec/Keeps.antt =====
-- Invariants of code that changes a state, one rule for each way to build it.
use p2pft.Prelude.{String, Bool, true, false, if◌then◌else◌}
use p2pft.Io.Result.{Error, Result, ok, err, annotated}
use p2pft.Io.Exec.{Exec, pure, raise, lift, annotate, attempt, follow, ◌>>=◌}

-- `m` keeps `P`, whether it ends with a value or with an error.
pub record Keeps {S A : Type 0} (P : S → Type 0) (m : Exec S A) : Type 0 where
  pub at : (s : S) → P s → P (m s).1

module _ {S A : Type 0} {P : S → Type 0} where
  pub Keeps-pure : (a : A) → Keeps P (pure a)
  Keeps-pure a = record { at = λ s h. h }

  pub Keeps-raise : (e : Error) → Keeps P (raise {A = A} e)
  Keeps-raise e = record { at = λ s h. h }

  pub Keeps-lift : (r : Result A) → Keeps P (lift r)
  Keeps-lift r = record { at = λ s h. h }

  pub Keeps-annotate : (msg : String) (m : Exec S A) → Keeps P m → Keeps P (annotate msg m)
  Keeps-annotate msg m k = record { at = k.at }

  pub Keeps-attempt : (m : Exec S A) → Keeps P m → Keeps P (attempt m)
  Keeps-attempt m k = record { at = k.at }

  pub Keeps-if : (b : Bool) (m n : Exec S A) → Keeps P m → Keeps P n → Keeps P (if b then m else n)
  Keeps-if true m n km kn = km
  Keeps-if false m n km kn = kn

module _ {S A B : Type 0} {P : S → Type 0} where
  Keeps-follow :
      (r : Result A) (f : A → Exec S B) (s : S)
      → ((a : A) → Keeps P (f a))
      → P s
      → P (follow r f s).1
  Keeps-follow (ok a) f s kf h = (kf a).at s h
  Keeps-follow (err e) f s kf h = h

  pub Keeps-bind :
      (m : Exec S A) (f : A → Exec S B) → Keeps P m → ((a : A) → Keeps P (f a)) → Keeps P (m >>= f)
  Keeps-bind m f km kf = record { at = λ s h. Keeps-follow (m s).0 f (m s).1 kf (km.at s h) }

pub ruleset keeps_rules =
    (Keeps-pure, Keeps-raise, Keeps-lift, Keeps-annotate, Keeps-attempt, Keeps-if, Keeps-bind)

abbrev pub Failed : {A : Type 0} → Result A → Type 0
Failed (ok a) = ⊥
Failed (err e) = Unit

-- `m` keeps `P` if it ends with an error.
pub record Guards {S A : Type 0} (P : S → Type 0) (m : Exec S A) : Type 0 where
  pub at : (s : S) → P s → Failed (m s).0 → P (m s).1

module _ {S A : Type 0} {P : S → Type 0} where
  pub Guards-of-Keeps : (m : Exec S A) → Keeps P m → Guards P m
  Guards-of-Keeps m k = record { at = λ s h _. k.at s h }

  pub Guards-annotate : (msg : String) (m : Exec S A) → Guards P m → Guards P (annotate msg m)
  Guards-annotate msg m k = record { at = λ s h f. k.at s h (failed (m s).0 f) }
    where
      failed : (r : Result A) → Failed (annotated msg r) → Failed r
      failed (ok a) f = f
      failed (err e) f = f

module _ {S A B : Type 0} (P : S → Type 0) where
  Guards-follow_last :
      (r : Result A) (f : A → Exec S B) (s : S)
      → ((a : A) (t : S) → Failed (f a t).0 → ⊥)
      → (Failed r → P s)
      → Failed (follow r f s).0
      → P (follow r f s).1
  Guards-follow_last (ok a) f s never h e = absurd (never a s e)
  Guards-follow_last (err x) f s never h e = h tt

module _ {S A B : Type 0} {P : S → Type 0} where
  Guards-follow :
      (r : Result A) (f : A → Exec S B) (s : S)
      → ((a : A) → Guards P (f a))
      → P s
      → Failed (follow r f s).0
      → P (follow r f s).1
  Guards-follow (ok a) f s kf h e = (kf a).at s h e
  Guards-follow (err x) f s kf h e = h

  pub Guards-bind :
      (m : Exec S A) (f : A → Exec S B)
      → Keeps P m
      → ((a : A) → Guards P (f a))
      → Guards P (m >>= f)
  Guards-bind m f km kf = record { at = λ s h e. Guards-follow (m s).0 f (m s).1 kf (km.at s h) e }

  -- What cannot fail may do what it likes behind the last call that can.
  pub Guards-bind_last :
      (m : Exec S A) (f : A → Exec S B)
      → Guards P m
      → ((a : A) (t : S) → Failed (f a t).0 → ⊥)
      → Guards P (m >>= f)
  Guards-bind_last m f km never = record {
    at = λ s h e. Guards-follow_last P (m s).0 f (m s).1 never (km.at s h) e;
  }

pub ruleset guards_rules = (Guards-of-Keeps, Guards-annotate, Guards-bind, Guards-bind_last)

module _ {S A : Type 0} {P : S → Type 0} where
  pub Guards-if :
      (b : Bool) (m n : Exec S A) → Guards P m → Guards P n → Guards P (if b then m else n)
  Guards-if true m n km kn = km
  Guards-if false m n km kn = kn
