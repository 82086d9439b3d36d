-- ===== src/Io/Exec/Ends.antt =====
-- Code whose loops have rounds enough.
use p2pft.Prelude.{String, Bool, true, false, if◌then◌else◌}
use p2pft.Io.Result.{Error, Result, ok, err, out_of_fuel, wrap, annotated}
use p2pft.Io.Exec.{Exec, pure, raise, lift, annotate, attempt, follow, ◌>>=◌}

-- The error is one of the program's own.
abbrev pub IsGenuine : Error → Type 0
IsGenuine out_of_fuel = ⊥
IsGenuine (wrap msg e) = IsGenuine e
IsGenuine _ = Unit

abbrev pub Ended : {A : Type 0} → Result A → Type 0
Ended (ok a) = Unit
Ended (err e) = IsGenuine e

-- From every state `m` comes to an end.
pub record Ends {S A : Type 0} (m : Exec S A) : Type 0 where
  pub at : (s : S) → Ended (m s).0

pub annotated-Ended :
    {A : Type 0} → (msg : String) (r : Result A) → Ended r → Ended (annotated msg r)
annotated-Ended msg (ok a) h = tt
annotated-Ended msg (err e) h = h

module _ {S A : Type 0} where
  pub Ends-pure : (a : A) → Ends {S = S} (pure a)
  Ends-pure a = record { at = λ s. tt }

  pub Ends-raise : (e : Error) → IsGenuine e → Ends {S = S} {A = A} (raise e)
  Ends-raise e h = record { at = λ s. h }

  pub Ends-lift : (r : Result A) → Ended r → Ends {S = S} (lift r)
  Ends-lift r h = record { at = λ s. h }

  pub Ends-annotate : (msg : String) (m : Exec S A) → Ends m → Ends (annotate msg m)
  Ends-annotate msg m k = record { at = λ s. annotated-Ended msg (m s).0 (k.at s) }

  pub Ends-if : (b : Bool) (m n : Exec S A) → Ends m → Ends n → Ends (if b then m else n)
  Ends-if true m n km kn = km
  Ends-if false m n km kn = kn

module _ {S A B : Type 0} where
  pub Ends-bind :
      (m : Exec S A) (f : A → Exec S B) → Ends m → ((a : A) → Ends (f a)) → Ends (m >>= f)
  Ends-bind m f km kf = record { at = λ s. both (m s) (km.at s) }
    where
      both : (r : Result A × S) → Ended r.0 → Ended (follow r.0 f r.1).0
      both (ok a, t) h = (kf a).at t
      both (err e, t) h = h

  -- The code behind an `attempt` sees an error that is genuine.
  pub Ends-attempt :
      (m : Exec S A) (f : Result A → Exec S B)
      → Ends m
      → ((r : Result A) → Ended r → Ends (f r))
      → Ends (attempt m >>= f)
  Ends-attempt m f km kf = record { at = λ s. (kf (m s).0 (km.at s)).at (m s).1 }

pub ruleset ends_rules =
    (Ends-attempt, Ends-pure, Ends-raise, Ends-lift, Ends-annotate, Ends-if, Ends-bind)
