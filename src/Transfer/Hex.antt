-- ===== src/Transfer/Hex.antt =====
-- `encoding/hex`, and hexDecode and hexDecodeFixed of internal/transfer.
use p2pft.Prelude.{
  ℕ, ◌+◌, ◌-◌, ◌*◌, ◌/◌, ◌%◌, ◌<◌, ◌≡◌, refl, ap, Option, none, some, [], ◌∷◌, ◌==◌, ◌&&◌, ltb, leb,
  if◌then◌else◌, length, Bytes, Text, All, IsByte, arith,
}
use p2pft.Io.Result.{Result, ok, err, message}

-- The digits are `0123456789abcdef`.
abbrev pub hex_digit : ℕ → ℕ
hex_digit n = if ltb n 10 then n + b'0' else n - 10 + b'a'

-- Upper case is accepted too.
abbrev pub hex_value : ℕ → Option ℕ
hex_value c =
    if leb b'0' c && leb c b'9'
    then some (c - b'0')
    else if leb b'a' c && leb c b'f'
    then some (c - b'a' + 10)
    else if leb b'A' c && leb c b'F'
    then some (c - b'A' + 10)
    else none

-- `hex.EncodeToString`
unfoldable pub hex_encode : Bytes → Text
hex_encode [] = []
hex_encode (b ∷ bs) = hex_digit (b / 16) ∷ hex_digit (b % 16) ∷ hex_encode bs

abbrev pub hex_pair : Option ℕ → Option ℕ → Option Bytes → Option Bytes
hex_pair (some h) (some l) (some bs) = some ((h * 16 + l) ∷ bs)
hex_pair _ _ _ = none

-- `hex.DecodeString`, without the bytes that come with an error: no caller looks at them.
unfoldable pub hex_decode : Text → Option Bytes
hex_decode [] = some []
hex_decode (c ∷ []) = none
hex_decode (c ∷ d ∷ cs) = hex_pair (hex_value c) (hex_value d) (hex_decode cs)

abbrev pub of_length : ℕ → Option Bytes → Result Bytes
of_length want none = err (message "encoding/hex")
of_length want (some b) =
    if length b == want then ok b else err (message "unexpected number of bytes")

unfoldable pub hex_decode_fixed : Text → ℕ → Result Bytes
hex_decode_fixed s want = of_length want (hex_decode s)

hex_value-digit : (n : ℕ) → n < 16 → hex_value (hex_digit n) ≡ some n
hex_value-digit n h = ground arith

-- Decoding reads back what encoding wrote.
pub decode-encode : (bs : Bytes) → All IsByte bs → hex_decode (hex_encode bs) ≡ some bs
unfolding hex_decode hex_encode
decode-encode [] h = refl
decode-encode (b ∷ bs) (hb, h) =
    rw
      (
        hex_value-digit (b / 16) (omega arith),
        hex_value-digit (b % 16) (omega arith),
        decode-encode bs h,
      )
      (ap (λ (t : ℕ). some (t ∷ bs)) (omega arith))
