-- ===== src/Progress/Bar/Lines.antt =====
-- What a bar prints in any sequence of calls.
use p2pft.Prelude.{
  pos, negsuc, some, arith, if◌then◌else◌, wrap_int64, ◌+ℤ◌, ℕ, ◌+◌, ℤ, ◌≡◌, refl, ◌⊎◌, inl, inr,
  true, false, Bool-cases, List, [], ◌∷◌, ◌++◌, append_assoc, All, All-append, Text, leb, leb_ℤ,
  ◌||◌,
}
use p2pft.Progress.Bar.{
  bar_of, repeated, default_bar_width, Line, drawn, newline, Bar, new_bar, set_label,
  refresh_interval, set, finish_bar, Call, labels, sets, ticks, finishes, call, calls,
}

abbrev pub IsDrawn : ℤ → Line → Type 0
IsDrawn total (drawn label current t width) = t ≡ total
IsDrawn total newline = ⊥

-- The bar of the last line: all of it is filled, or nothing where the total is not positive.
abbrev pub last_bar : ℤ → Text
last_bar full = repeated (if leb_ℤ full (pos 0) then b'-' else b'#') default_bar_width

leb_ℤ_refl : (z : ℤ) → leb_ℤ z z ≡ true
leb_ℤ_refl (pos n) = ground arith
leb_ℤ_refl (negsuc n) = ground arith

-- A bar that is not done has drawn lines only; one that is done has drawn a line at its total last,
-- and then ended the line.
pub record Shows (quotient : ℤ → ℤ → ℕ → ℤ) (full : ℤ) (b : Bar) : Type 0 where
  pub total : b.total ≡ full
  pub width : b.width ≡ default_bar_width
  pub shown :
      ((b.done ≡ false) × All (IsDrawn full) b.out)
      ⊎ ((b.done ≡ true)
          × (before : List Line) × (last : Line) × All (IsDrawn full) before
          × (b.out ≡ before ++ last ∷ newline ∷ [])
          × ((label : Text) × (last ≡ drawn label full full default_bar_width))
          × (bar_of quotient last ≡ some (last_bar full)))

module _ (quotient : ℤ → ℤ → ℕ → ℤ) (total : ℤ) where
  last_line :
      (label : Text)
      → bar_of quotient (drawn label total total default_bar_width) ≡ some (last_bar total)
  last_line label = elim (Bool-cases (leb_ℤ total (pos 0))) [
    | inl empty ↦ rw empty refl
    | inr some_left ↦ rw (some_left, leb_ℤ_refl total) refl
  ]

  set-Shows :
      (now : ℕ) (c : ℤ) (b : Bar) → Shows quotient total b → Shows quotient total (set now c b)
  unfolding set
  set-Shows now c b h = elim h.shown [
    | inl (e, lines) ↦ elim (Bool-cases (leb (b.last + refresh_interval) now || leb_ℤ b.total c)) [
      | inl due ↦
          rw (e, due)
            (record {
              total = h.total;
              width = h.width;
              shown = inl (refl, All-append (IsDrawn total) b.out _ lines (h.total, tt));
            })
      | inr early ↦
          rw (e, early) (record { total = h.total; width = h.width; shown = inl (refl, lines) })
    ]
    | inr (e, before, last, lines, o, l, k) ↦ rw e (record {
      total = h.total;
      width = h.width;
      shown = inr (refl, before, last, lines, o, l, k);
    })
  ]

  finish_bar-Shows : (b : Bar) → Shows quotient total b → Shows quotient total (finish_bar b)
  unfolding finish_bar
  finish_bar-Shows b h = elim h.shown [
    | inl (e, lines) ↦ rw e (record {
      total = h.total;
      width = h.width;
      shown = inr (
        refl,
        b.out,
        drawn b.label total total default_bar_width,
        lines,
        rw (h.total, h.width)
            (append_assoc b.out (drawn b.label total total default_bar_width ∷ []) (newline ∷ [])),
        (b.label, refl),
        last_line b.label,
      );
    })
    | inr (e, before, last, lines, o, l, k) ↦ rw e (record {
      total = h.total;
      width = h.width;
      shown = inr (refl, before, last, lines, o, l, k);
    })
  ]

  call-Shows : (k : Call) (b : Bar) → Shows quotient total b → Shows quotient total (call k b)
  unfolding set_label
  call-Shows (labels t) b h = record { total = h.total; width = h.width; shown = h.shown }
  call-Shows (sets now c) b h = set-Shows now c b h
  call-Shows (ticks now delta) b h = set-Shows now (wrap_int64 (b.current +ℤ delta)) b h
  call-Shows finishes b h = finish_bar-Shows b h

  calls-Shows_from :
      (ks : List Call) (b : Bar) → Shows quotient total b → Shows quotient total (calls ks b)
  calls-Shows_from [] b h = h
  calls-Shows_from (k ∷ ks) b h = calls-Shows_from ks (call k b) (call-Shows k b h)

  -- Whatever the calls and their times are, a bar that is not finished has drawn lines only, each
  -- with its total; one that is finished has drawn one more line, at its total, ended it, and
  -- printed nothing since, whatever was called after the first `Finish`. The bar of that last line
  -- is 30 characters wide, filled if the total is positive, and empty if it is not.
  pub calls-Shows : (ks : List Call) → Shows quotient total (calls ks (new_bar total))
  calls-Shows ks =
      calls-Shows_from ks (new_bar total)
        (record { total = refl; width = refl; shown = inl (refl, tt) })
