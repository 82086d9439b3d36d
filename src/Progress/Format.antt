-- ===== src/Progress/Format.antt =====
-- internal/progress/bar.go: FormatBytes.
pub mod Units
use p2pft.Prelude.{
  ℕ, zero, suc, ◌+◌, ◌*◌, ◌/◌, ℤ, pos, negsuc, Option, none, some, ltb, leb, if◌then◌else◌,
}

abbrev pub unit : ℕ
unit = 1024

-- What is printed: `%d B`, or `%.1f %ciB` of the quotient `n / div` and a letter of `KMGTPE`.
-- `panics` is an index outside of that string, and `stuck` a loop that has used up its rounds.
pub data Formatted : Type 0 where
  plain : ℤ → Formatted
  scaled : ℕ → ℕ → ℕ → Formatted
  panics stuck : Formatted

-- `"KMGTPE"[exp]`
abbrev pub letter : ℕ → Option ℕ
letter zero = some b'K'
letter (suc zero) = some b'M'
letter (suc (suc zero)) = some b'G'
letter (suc (suc (suc zero))) = some b'T'
letter (suc (suc (suc (suc zero)))) = some b'P'
letter (suc (suc (suc (suc (suc zero))))) = some b'E'
letter _ = none

abbrev pub printed : ℕ → ℕ → Option ℕ → Formatted
printed n div none = panics
printed n div (some c) = scaled n div c

-- The loop with fuel: `x` is what is left of `n`.
unfoldable pub scale_loop : ℕ → ℕ → ℕ → ℕ → ℕ → Formatted
scale_loop zero n x div exp = stuck
scale_loop (suc fuel) n x div exp =
    let more = scale_loop fuel n (x / unit) (div * unit) (exp + 1) in
    if leb unit x then more else printed n div (letter exp)

-- Six rounds are enough for an int64.
unfoldable pub format_bytes : ℤ → Formatted
unfolding scale_loop
format_bytes (negsuc n) = plain (negsuc n)
format_bytes (pos n) = if ltb n unit then plain (pos n) else scale_loop 6 n (n / unit) unit 0
