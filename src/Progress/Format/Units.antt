-- ===== src/Progress/Format/Units.antt =====
-- FormatBytes takes the largest unit that fits, for every int64.
use p2pft.Prelude.{
  ℕ, ◌+◌, ◌*◌, ◌/◌, ◌^◌, ◌≤◌, ◌<◌, ◌≡◌, refl, inl, inr, pos, some, true, false, ltb, leb,
  if◌then◌else◌, arith, Bool-cases,
}
use p2pft.Progress.Format.{unit, Formatted, scaled, letter, format_bytes}

-- The unit with the index `e` is 1024 to the power `e + 1`, and its letter is at `e` in `KMGTPE`.
pub record Fits (n : ℕ) (r : Formatted) : Type 0 where
  pub index : ℕ
  pub symbol : ℕ
  pub is_letter : letter index ≡ some symbol
  pub result : r ≡ scaled n (unit ^ (index + 1)) symbol
  pub not_less : unit ^ (index + 1) ≤ n
  pub below_next : n < unit ^ (index + 1) * unit

le_of_test : (x : ℕ) → leb unit x ≡ true → unit ≤ x
le_of_test x h = ground arith

lt_of_test : (x : ℕ) → leb unit x ≡ false → x < unit
lt_of_test x h = ground arith

no_test : (n : ℕ) → unit ≤ n → ltb n unit ≡ false
no_test n h = ground arith

fits :
    (n e c : ℕ)
    → letter e ≡ some c
    → unit ^ (e + 1) ≤ n
    → n < unit ^ (e + 1) * unit
    → Fits n (scaled n (unit ^ (e + 1)) c)
fits n e c l lo hi = record {
  index = e;
  symbol = c;
  is_letter = l;
  result = refl;
  not_less = lo;
  below_next = hi;
}

-- One round with the quotient `x`: either it stops here, or it goes on with the next unit.
round :
    (n x e c : ℕ) (more : Formatted)
    → letter e ≡ some c
    → unit ^ (e + 1) ≤ n
    → (x < unit → n < unit ^ (e + 1) * unit)
    → (unit ≤ x → Fits n more)
    → Fits n (if leb unit x then more else scaled n (unit ^ (e + 1)) c)
round n x e c more l lo hi next = elim (Bool-cases (leb unit x)) [
  | inl t ↦ rw t (next (le_of_test x t))
  | inr t ↦ rw t (fits n e c l lo (hi (lt_of_test x t)))
]

-- For sizes from 1024 to the largest int64 the result is a quotient by the power of 1024 that is
-- at most the size and more than a 1024th of it, with the letter of that power; the index into
-- `KMGTPE` is in range and the loop ends.
pub format_bytes-Fits : (n : ℕ) → unit ≤ n → n < 2 ^ 63 → Fits n (format_bytes (pos n))
unfolding format_bytes
format_bytes-Fits n lo hi = rw (no_test n lo) (
    round n (n / unit) 0 b'K' _ refl (omega arith) (λ t. omega arith)
      λ m₁.
        round n (n / unit / unit) 1 b'M' _ refl (omega arith) (λ t. omega arith)
          λ m₂.
            round n (n / unit / unit / unit) 2 b'G' _ refl (omega arith) (λ t. omega arith)
              λ m₃.
                round n (n / unit / unit / unit / unit) 3 b'T' _ refl (omega arith)
                  (λ t. omega arith)
                  λ m₄.
                    round n (n / unit / unit / unit / unit / unit) 4 b'P' _ refl (omega arith)
                      (λ t. omega arith)
                      λ m₅.
                        round n (n / unit / unit / unit / unit / unit / unit) 5 b'E' _ refl
                          (omega arith) (λ t. omega arith) λ m₆. absurd (omega arith))
