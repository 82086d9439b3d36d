-- ===== src/Progress/Bar/Shared/Sound.antt =====
-- What goroutines that share a bar print, in every order of their steps.
use p2pft.Prelude.{
  ℕ, zero, suc, ◌+◌, ◌≡◌, refl, ℤ, true, false, Bool-cases, inl, inr, List, [], ◌∷◌, ◌++◌, All,
  All-append, if◌then◌else◌, arith, wrap_int64, ◌+ℤ◌,
}
use p2pft.Progress.Bar.{
  Line, drawn, newline, Bar, new_bar, set_label, should_render, Call, labels, sets, ticks, finishes,
}
use p2pft.Progress.Bar.Lines.{IsDrawn}
use p2pft.Progress.Bar.Shared.{
  Place, outside, rendering, printing, ending, lock_set, lock_finish, enter, go_on, Turn, enters,
  goes, Run, stays, then_turn, idle,
}

-- A drawn line that shows the total `full`, or the end of a line.
abbrev pub IsLine : ℤ → Line → Type 0
IsLine full (drawn label current t width) = t ≡ full
IsLine full newline = Unit

abbrev IsPlace : ℤ → Place → Type 0
IsPlace full (printing line ends) = IsDrawn full line
IsPlace full _ = Unit

abbrev pub newlines : List Line → ℕ
newlines [] = 0
newlines (newline ∷ out) = suc (newlines out)
newlines (drawn label current t width ∷ out) = newlines out

-- Whether a goroutine is in a call of `Finish` that will end the line.
abbrev ends_in : Place → ℕ
ends_in (rendering ends) = if ends then 1 else 0
ends_in (printing line ends) = if ends then 1 else 0
ends_in ending = 1
ends_in outside = 0

abbrev pub finishing : List Place → ℕ
finishing [] = 0
finishing (p ∷ ps) = ends_in p + finishing ps

newlines-append : (xs ys : List Line) → newlines (xs ++ ys) ≡ newlines xs + newlines ys
newlines-append [] ys = omega arith
newlines-append (newline ∷ xs) ys = omega (arith, newlines-append xs ys)
newlines-append (drawn label current t width ∷ xs) ys = newlines-append xs ys

finishing-middle :
    (before after : List Place) (p : Place)
    → finishing (before ++ p ∷ after) ≡ (finishing before + finishing after) + ends_in p
finishing-middle [] after p = omega arith
finishing-middle (q ∷ before) after p = omega (arith, finishing-middle before after p)

All-middle :
    (P : Place → Type 0) (before after : List Place) (p : Place) → All P (before ++ p ∷ after) → P p
All-middle P [] after p (h, _) = h
All-middle P (q ∷ before) after p (_, hs) = All-middle P before after p hs

All-replace :
    (P : Place → Type 0) (before after : List Place) (p q : Place)
    → All P (before ++ p ∷ after)
    → P q
    → All P (before ++ q ∷ after)
All-replace P [] after p q (_, hs) h = (h, hs)
All-replace P (x ∷ before) after p q (hx, hs) h = (hx, All-replace P before after p q hs h)

-- One goroutine and the bar, where `n` of the others will end the line.
record Local (full : ℤ) (n : ℕ) (p : Place) (b : Bar) : Type 0 where
  total : b.total ≡ full
  lines : All (IsLine full) b.out
  line : IsPlace full p
  once : newlines b.out + (n + ends_in p) ≡ (if b.done then 1 else 0)

module _ (full : ℤ) (n : ℕ) where
  lock_set-Local :
      (now : ℕ) (c : ℤ) (b : Bar)
      → Local full n outside b
      → Local full n (lock_set now c b).0 (lock_set now c b).1
  unfolding lock_set
  lock_set-Local now c b h = elim (Bool-cases (should_render now c b)) [
    | inl due ↦ rw due (record { total = h.total; lines = h.lines; line = tt; once = h.once })
    | inr early ↦ rw early (record { total = h.total; lines = h.lines; line = tt; once = h.once })
  ]

  lock_finish-Local :
      (b : Bar) → Local full n outside b → Local full n (lock_finish b).0 (lock_finish b).1
  unfolding lock_finish
  lock_finish-Local b h = elim (Bool-cases b.done) [
    | inl e ↦ rw e (record { total = h.total; lines = h.lines; line = tt; once = rw e at h.once })
    | inr e ↦ rw e (record {
      total = h.total;
      lines = h.lines;
      line = tt;
      once = omega (arith, rw e at h.once);
    })
  ]

  enter-Local :
      (k : Call) (b : Bar) → Local full n outside b → Local full n (enter k b).0 (enter k b).1
  unfolding set_label
  enter-Local (labels t) b h = record { total = h.total; lines = h.lines; line = tt; once = h.once }
  enter-Local (sets now c) b h = lock_set-Local now c b h
  enter-Local (ticks now delta) b h = lock_set-Local now (wrap_int64 (b.current +ℤ delta)) b h
  enter-Local finishes b h = lock_finish-Local b h

  go_on-Local : (p : Place) (b : Bar) → Local full n p b → Local full n (go_on p b).0 (go_on p b).1
  unfolding go_on
  go_on-Local outside b h = h
  go_on-Local (rendering ends) b h = record {
    total = h.total;
    lines = h.lines;
    line = h.total;
    once = h.once;
  }
  go_on-Local (printing newline ends) b h = absurd h.line
  go_on-Local (printing (drawn label current t width) true) b h = record {
    total = h.total;
    lines = All-append (IsLine full) b.out (drawn label current t width ∷ []) h.lines (h.line, tt);
    line = tt;
    once = omega (arith, newlines-append b.out (drawn label current t width ∷ []), h.once);
  }
  go_on-Local (printing (drawn label current t width) false) b h = record {
    total = h.total;
    lines = All-append (IsLine full) b.out (drawn label current t width ∷ []) h.lines (h.line, tt);
    line = tt;
    once = omega (arith, newlines-append b.out (drawn label current t width ∷ []), h.once);
  }
  go_on-Local ending b h = record {
    total = h.total;
    lines = All-append (IsLine full) b.out (newline ∷ []) h.lines (tt, tt);
    line = tt;
    once = omega (arith, newlines-append b.out (newline ∷ []), h.once);
  }

-- The invariant of a bar that goroutines share.
record Sound (full : ℤ) (s : List Place × Bar) : Type 0 where
  total : s.1.total ≡ full
  lines : All (IsLine full) s.1.out
  to_print : All (IsPlace full) s.0
  once : newlines s.1.out + finishing s.0 ≡ (if s.1.done then 1 else 0)

module _ (full : ℤ) where
  Sound-Local :
      (before after : List Place) (p : Place) (b : Bar)
      → Sound full (before ++ p ∷ after, b)
      → Local full (finishing before + finishing after) p b
  Sound-Local before after p b h = record {
    total = h.total;
    lines = h.lines;
    line = All-middle (IsPlace full) before after p h.to_print;
    once = omega (arith, finishing-middle before after p, h.once);
  }

  Local-Sound :
      (before after : List Place) (p q : Place) (b c : Bar)
      → Sound full (before ++ p ∷ after, b)
      → Local full (finishing before + finishing after) q c
      → Sound full (before ++ q ∷ after, c)
  Local-Sound before after p q b c h l = record {
    total = l.total;
    lines = l.lines;
    to_print = All-replace (IsPlace full) before after p q h.to_print l.line;
    once = omega (arith, finishing-middle before after q, l.once);
  }

  turn-Sound : {s t : List Place × Bar} → Turn s t → Sound full s → Sound full t
  turn-Sound (enters before after k b) h =
      Local-Sound before after outside (enter k b).0 b (enter k b).1 h (
        enter-Local full (finishing before + finishing after) k b
          (Sound-Local before after outside b h))
  turn-Sound (goes before after p b) h =
      Local-Sound before after p (go_on p b).0 b (go_on p b).1 h
        (go_on-Local full (finishing before + finishing after) p b (Sound-Local before after p b h))

  run-Sound : {s t : List Place × Bar} → Run s t → Sound full s → Sound full t
  run-Sound stays h = h
  run-Sound (then_turn r k) h = turn-Sound k (run-Sound r h)

  all_outside : (n : ℕ) → All (IsPlace full) (idle n) × (finishing (idle n) ≡ 0)
  all_outside zero = (tt, refl)
  all_outside (suc n) = let (a, e) = all_outside n in ((tt, a), omega (arith, e))

  -- However the goroutines that share a new bar take turns and whatever they call, every line
  -- that is drawn shows the total of the bar, and the number of lines that have been ended and of
  -- calls of `Finish` that still will end one is 1 if the bar is done and 0 if it is not.
  pub shared-once :
      (n : ℕ) (ps : List Place) (b : Bar)
      → Run (idle n, new_bar full) (ps, b)
      → All (IsLine full) b.out × (newlines b.out + finishing ps ≡ (if b.done then 1 else 0))
  shared-once n ps b r =
      let h = run-Sound r (record {
        total = refl;
        lines = tt;
        to_print = (all_outside n).0;
        once = omega (arith, (all_outside n).1);
      }) in
      (h.lines, h.once)
