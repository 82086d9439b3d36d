-- ===== src/Io/Exec/Only.antt =====
-- Code that leaves a base invariant true unless all that stands before a critical part has
-- succeeded.
use p2pft.Prelude.{String, Bool, true, false, ◌≡◌, refl, ap, ◌⊎◌, inl, if◌then◌else◌}
use p2pft.Io.Result.{Result, ok, err, annotated}
use p2pft.Io.Exec.{Exec, annotate, follow, ◌>>=◌}
use p2pft.Io.Exec.Keeps.{Keeps}

-- From a state of `P`, `m` leaves a state of `B`, or else one of `G`.
pub record Only {S A : Type 0} (B G P : S → Type 0) (m : Exec S A) : Type 0 where
  pub at : (s : S) → P s → B (m s).1 ⊎ G (m s).1

-- `m` has given `a` in a state of `P`.
abbrev pub Gave : {S A : Type 0} → (S → Type 0) → Exec S A → A → Type 0
Gave {S} P m a = (s : S) × P s × ((m s).0 ≡ ok a)

module _ {S A : Type 0} {B G P : S → Type 0} where
  pub Only-of-Keeps : (m : Exec S A) → Keeps P m → ((s : S) → P s → B s) → Only B G P m
  Only-of-Keeps m k base = record { at = λ s h. inl (base (m s).1 (k.at s h)) }

  pub Only-annotate : (msg : String) (m : Exec S A) → Only B G P m → Only B G P (annotate msg m)
  Only-annotate msg m k = record { at = k.at }

  pub Only-if :
      (b : Bool) (m n : Exec S A)
      → (b ≡ true → Only B G P m)
      → (b ≡ false → Only B G P n)
      → Only B G P (if b then m else n)
  Only-if true m n km kn = km refl
  Only-if false m n km kn = kn refl

-- From a state of `P`, `m` ends in one of `Q`, with a value or with an error.
pub record Leads {S A : Type 0} (P Q : S → Type 0) (m : Exec S A) : Type 0 where
  pub at : (s : S) → P s → Q (m s).1

module _ {S A C : Type 0} {B G P Q : S → Type 0} where
  -- The rest knows what `m` gave, and from where.
  pub Only-lead :
      (m : Exec S A) (f : A → Exec S C)
      → Leads P Q m
      → ((s : S) → Q s → B s)
      → ((a : A) → Gave P m a → Only B G Q (f a))
      → Only B G P (m >>= f)
  Only-lead m f leads base kf = record { at = λ s h. both s h (m s) refl (leads.at s h) }
    where
      both :
          (s : S)
          → P s
          → (r : Result A × S) → m s ≡ r
          → Q r.1
          → B (follow r.0 f r.1).1 ⊎ G (follow r.0 f r.1).1
      both s p (ok a, t) e h = (kf a (s, p, ap (λ (r : Result A × S). r.0) e)).at t h
      both s p (err x, t) e h = inl (base t h)

  -- `m` starts in `P` and keeps the weaker `Q`.
  pub Only-bind :
      (m : Exec S A) (f : A → Exec S C)
      → ((s : S) → P s → Q s)
      → ((s : S) → Q s → B s)
      → Keeps Q m
      → ((a : A) → Gave P m a → Only B G Q (f a))
      → Only B G P (m >>= f)
  Only-bind m f weaker base km kf =
      Only-lead m f (record { at = λ s h. km.at s (weaker s h) }) base kf

module _ {S A : Type 0} {P : S → Type 0} where
  pub Gave-annotate : (msg : String) (m : Exec S A) {a : A} → Gave P (annotate msg m) a → Gave P m a
  Gave-annotate msg m {a} (s, p, e) = (s, p, strip (m s).0 e)
    where
      strip : (r : Result A) → annotated msg r ≡ ok a → r ≡ ok a
      strip (ok x) h = h
      strip (err x) h = cc h
