-- ===== src/Prelude/Strings.antt =====
-- Go strings and byte slices as lists of bytes.
use Prim.Native.Nat.{ℕ, ◌<◌}
use Prim.Native.Char.{code}
use Prim.Native.String.{String}
use mathlib.Core.Path.{◌≡◌, refl}
use mathlib.Core.Logic.{◌↔◌}
use mathlib.Core.Bool.{Bool, true, false, ◌&&◌}
use mathlib.Core.List.{List, [], ◌∷◌}
use native.Mathlib.Omega.{arith}
use p2pft.Prelude.Tests.{◌==◌}

abbrev pub Bytes : Type 0
Bytes = List ℕ

-- A Go string is a sequence of bytes too.
abbrev pub Text : Type 0
Text = List ℕ

abbrev pub IsByte : ℕ → Type 0
IsByte b = b < 256

-- The bytes of an ASCII literal.
abbrev pub codes : String → Text
codes String.[] = []
codes (String.◌∷◌ c s) = code c ∷ codes s

-- `==` on strings, and `bytes.Equal`.
abbrev pub eqb_text : Text → Text → Bool
eqb_text [] [] = true
eqb_text [] (y ∷ ys) = false
eqb_text (x ∷ xs) [] = false
eqb_text (x ∷ xs) (y ∷ ys) = x == y && eqb_text xs ys

pub eqb_text→eq : (a b : Text) → eqb_text a b ≡ true → a ≡ b
eqb_text→eq [] [] h = refl
eqb_text→eq [] (y ∷ ys) h = ground arith
eqb_text→eq (x ∷ xs) [] h = ground arith
eqb_text→eq (x ∷ xs) (y ∷ ys) h = ground (arith, eqb_text→eq xs ys)

pub eqb_text_refl : (a : Text) → eqb_text a a ≡ true
eqb_text_refl [] = refl
eqb_text_refl (x ∷ xs) = ground (arith, eqb_text_refl xs)

pub eqb_text_iff : (a b : Text) → (eqb_text a b ≡ true) ↔ (a ≡ b)
eqb_text_iff a b = (eqb_text→eq a b, λ e. ground (arith, e, eqb_text_refl a))
