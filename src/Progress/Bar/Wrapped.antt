-- ===== src/Progress/Bar/Wrapped.antt =====
-- `Wrap`: a writer that moves a bar.
use p2pft.Prelude.{
  ℕ, ◌+◌, ◌<◌, ◌^◌, ◌≡◌, refl, ap, ◌∙◌, pos, Bool-cases, Option, List, [], ◌∷◌, Bytes, arith,
  wrap_int64, wrap_int64_small, inl, inr,
}
use p2pft.Io.Result.{Error}
use p2pft.Progress.Bar.{Bar, should_render, set, tick_by, write_wrapped}

tick_by-current :
    (now n c : ℕ) (b : Bar)
    → b.current ≡ pos c
    → c + n < 2 ^ 63
    → (tick_by now (pos n) b).current ≡ pos (c + n)
unfolding set
tick_by-current now n c b e h = elim (Bool-cases (should_render now (wrap_int64 (pos (c + n))) b)) [
  | inl due ↦ rw (e, due) (wrap_int64_small (c + n) h)
  | inr early ↦ rw (e, early) (wrap_int64_small (c + n) h)
]

module _ {W : Type 0} (write : Bytes → W → (ℕ × Option Error) × W) where
  -- The answers to several writes, the state behind them, and the number of bytes taken.
  abbrev pub all_writes : List (ℕ × Bytes) → W → List (ℕ × Option Error) × (W × ℕ)
  all_writes [] w = ([], (w, 0))
  all_writes ((now, p) ∷ ps) w =
      let (a, w') = write p w in
      let (answers, (end, n)) = all_writes ps w' in (a ∷ answers, (end, a.0 + n))

  abbrev pub all_wrapped : List (ℕ × Bytes) → W × Bar → List (ℕ × Option Error) × (W × Bar)
  all_wrapped [] s = ([], s)
  all_wrapped ((now, p) ∷ ps) s =
      let (a, s') = write_wrapped write now p s in
      let (answers, end) = all_wrapped ps s' in (a ∷ answers, end)

  -- Writes through `Wrap` answer what the writer itself answers, whatever the times are, and the
  -- bar is moved by the number of bytes that the writer has taken, as long as the sum is an int64.
  pub wrapped-writes :
      (ps : List (ℕ × Bytes)) (w : W) (b : Bar) (c : ℕ)
      → b.current ≡ pos c
      → c + (all_writes ps w).1.1 < 2 ^ 63
      → ((all_wrapped ps (w, b)).0 ≡ (all_writes ps w).0)
        × ((all_wrapped ps (w, b)).1.0 ≡ (all_writes ps w).1.0)
        × ((all_wrapped ps (w, b)).1.1.current ≡ pos (c + (all_writes ps w).1.1))
  wrapped-writes [] w b c e h = (refl, refl, e ∙ ap pos (omega arith))
  wrapped-writes ((now, p) ∷ ps) w b c e h =
      let n = (write p w).0.0 in
      let (a, s, k) =
        wrapped-writes ps (write p w).1 (tick_by now (pos n) b) (c + n)
          (tick_by-current now n c b e (omega (arith, h))) (omega (arith, h)) in
      (
        ap (λ (answers : List (ℕ × Option Error)). (write p w).0 ∷ answers) a,
        s,
        k ∙ ap pos (omega arith),
      )
