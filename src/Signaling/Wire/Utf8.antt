-- ===== src/Signaling/Wire/Utf8.antt =====
-- How encoding/json writes a Go string, which need not be UTF-8: by the runes of unicode/utf8.
use p2pft.Prelude.{
  ℕ, zero, suc, ◌≡◌, refl, ap, Option, none, some, Option-cases, inl, inr, Bool, true, false, ◌&&◌,
  ◌==◌, ltb, leb, if◌then◌else◌, List, [], ◌∷◌, length, Bytes, Text,
}

abbrev between : ℕ × ℕ → ℕ → Bool
between (lo, hi) b = leb lo b && leb b hi

abbrev continuation : ℕ × ℕ
continuation = (0x80, 0xbf)

-- The ranges of the bytes that must follow `b`, if a rune starts with it.
abbrev accept_ranges : ℕ → Option (List (ℕ × ℕ))
accept_ranges b =
    if ltb b 0x80
    then some []
    else if between (0xc2, 0xdf) b
    then some (continuation ∷ [])
    else if b == 0xe0
    then some ((0xa0, 0xbf) ∷ continuation ∷ [])
    else if b == 0xed
    then some ((0x80, 0x9f) ∷ continuation ∷ [])
    else if between (0xe1, 0xef) b
    then some (continuation ∷ continuation ∷ [])
    else if b == 0xf0
    then some ((0x90, 0xbf) ∷ continuation ∷ continuation ∷ [])
    else if between (0xf1, 0xf3) b
    then some (continuation ∷ continuation ∷ continuation ∷ [])
    else if b == 0xf4
    then some ((0x80, 0x8f) ∷ continuation ∷ continuation ∷ [])
    else none

abbrev follow_ranges : List (ℕ × ℕ) → Bytes → Bool
follow_ranges [] bs = true
follow_ranges (r ∷ rs) [] = false
follow_ranges (r ∷ rs) (b ∷ bs) = let rest = follow_ranges rs bs in between r b && rest

abbrev following : Option (List (ℕ × ℕ)) → Bytes → Option ℕ
following none bs = none
following (some rs) bs = if follow_ranges rs bs then some (length rs) else none

-- How many bytes of `bs` belong to the rune that starts with `b`; none is an invalid byte.
unfoldable pub rune_tail : ℕ → Bytes → Option ℕ
rune_tail b bs = following (accept_ranges b) bs

-- `k` bytes of a rune are still to come.
unfoldable pub valid_from : ℕ → Bytes → Bool
valid_from k [] = true
valid_from (suc k) (b ∷ bs) = valid_from k bs
valid_from zero (b ∷ bs) = elim (rune_tail b bs) [ none ↦ false | some k ↦ valid_from k bs ]

-- The replacement character U+FFFD stands for each invalid byte.
unfoldable pub coerce_from : ℕ → Bytes → Bytes
coerce_from k [] = []
coerce_from (suc k) (b ∷ bs) = b ∷ coerce_from k bs
coerce_from zero (b ∷ bs) = elim (rune_tail b bs) [
  | none ↦ 0xef ∷ 0xbf ∷ 0xbd ∷ coerce_from zero bs
  | some k ↦ b ∷ coerce_from k bs
]

-- The string that json.Marshal writes.
abbrev pub to_utf8 : Text → Text
to_utf8 t = coerce_from 0 t

-- `utf8.ValidString`
abbrev pub IsUtf8 : Text → Type 0
IsUtf8 t = valid_from 0 t ≡ true

coerce_from-valid : (k : ℕ) (bs : Bytes) → valid_from k bs ≡ true → coerce_from k bs ≡ bs
unfolding coerce_from valid_from
coerce_from-valid zero [] h = refl
coerce_from-valid (suc k) [] h = refl
coerce_from-valid (suc k) (b ∷ bs) h = ap (λ (r : Bytes). b ∷ r) (coerce_from-valid k bs h)
coerce_from-valid zero (b ∷ bs) h = elim (Option-cases (rune_tail b bs)) [
  | inl e ↦ cc (rw (e, valid_from) at h)
  | inr (k, e) ↦
      rw (e, coerce_from)
        (ap (λ (r : Bytes). b ∷ r) (coerce_from-valid k bs (rw (e, valid_from) at h)))
]

pub to_utf8-IsUtf8 : (t : Text) → IsUtf8 t → to_utf8 t ≡ t
to_utf8-IsUtf8 t h = coerce_from-valid 0 t h
