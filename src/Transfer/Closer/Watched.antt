-- ===== src/Transfer/Closer/Watched.antt =====
-- What the goroutine of `contextCloser` does in every order of events.
use p2pft.Prelude.{◌≡◌, refl, ◌⊎◌, inl, inr, Bool, Bool-cases, true, not, arith}
use p2pft.Transfer.Closer.{
  Watcher, selecting, gone, Watch, on_cancelled, on_done, stop, Watches, cancels, returns,
  sees_cancelled, sees_done, Watching, begins, then_watches,
}

-- The connection has been closed at most once, by a goroutine that has left, and only if the
-- context was cancelled; a goroutine that has left without closing it was told to stop; and the
-- channel is closed exactly if the run has returned.
pub record Sane (w : Watch) : Type 0 where
  pub at_work : w.watcher ≡ selecting → w.closes ≡ 0
  pub left :
      w.watcher ≡ gone
      → ((w.closes ≡ 1) × (w.cancelled ≡ true)) ⊎ ((w.closes ≡ 0) × (w.done ≡ true))
  pub told : w.done ≡ not w.running

-- A goroutine that is not needed any more can leave.
abbrev pub Leaves : Watch → Type 0
Leaves w = (w.watcher ≡ gone) ⊎ ((v : Watch) × Watches w v × (v.watcher ≡ gone))

step-Sane : {v w : Watch} → Watches v w → Sane v → Sane w
unfolding on_cancelled on_done stop
step-Sane (cancels v) h = record {
  at_work = h.at_work;
  left = λ e. elim (h.left e) [ inl (c, _) ↦ inl (c, refl) | inr d ↦ inr d ];
  told = h.told;
}
step-Sane (returns v r) h = record {
  at_work = h.at_work;
  left = λ e. elim (h.left e) [ inl c ↦ inl c | inr (c, _) ↦ inr (c, refl) ];
  told = refl;
}
step-Sane (sees_cancelled v s c) h = record {
  at_work = λ e. absurd (cc e);
  left = λ e. inl (omega (arith, h.at_work s), c);
  told = h.told;
}
step-Sane (sees_done v s d) h = record {
  at_work = λ e. absurd (cc e);
  left = λ e. inr (h.at_work s, d);
  told = h.told;
}

Watching-Sane : (cancelled : Bool) {w : Watch} → Watching cancelled w → Sane w
Watching-Sane cancelled begins = record {
  at_work = λ e. refl;
  left = λ e. absurd (cc e);
  told = refl;
}
Watching-Sane cancelled (then_watches r k) = step-Sane k (Watching-Sane cancelled r)

closes_once : (w : Watch) → Sane w → (w.closes ≡ 0) ⊎ ((w.closes ≡ 1) × (w.cancelled ≡ true))
closes_once w h = at_or_gone w.watcher refl
  where
    at_or_gone :
        (p : Watcher) → w.watcher ≡ p → (w.closes ≡ 0) ⊎ ((w.closes ≡ 1) × (w.cancelled ≡ true))
    at_or_gone selecting e = inl (h.at_work e)
    at_or_gone gone e = elim (h.left e) [ inl c ↦ inr c | inr (c, _) ↦ inl c ]

leaves : (w : Watch) → w.done ≡ true → Leaves w
unfolding on_done
leaves w d = at_or_gone w.watcher refl
  where
    at_or_gone : (p : Watcher) → w.watcher ≡ p → Leaves w
    at_or_gone selecting e = inr (on_done w, sees_done w e d, refl)
    at_or_gone gone e = inl e

-- Whatever the order of a cancellation, the return of the run and the cases of the `select`, the
-- goroutine closes the connection at most once, and only if the context was cancelled; and once
-- the run has returned, the goroutine has left or its next step can be to leave.
pub Watching-Leaves :
    (cancelled : Bool) (w : Watch)
    → Watching cancelled w
    → ((w.closes ≡ 0) ⊎ ((w.closes ≡ 1) × (w.cancelled ≡ true))) × ((w.running ≡ true) ⊎ Leaves w)
Watching-Leaves cancelled w r =
    let h = Watching-Sane cancelled r in
    (
      closes_once w h,
      elim (Bool-cases w.running) [ inl e ↦ inl e | inr e ↦ inr (leaves w (rw e at h.told)) ],
    )
