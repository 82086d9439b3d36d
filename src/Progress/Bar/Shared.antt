-- ===== src/Progress/Bar/Shared.antt =====
-- internal/progress/bar.go: a `Bar` that several goroutines use.
pub mod Sound
pub mod Late
pub mod Alone
use p2pft.Prelude.{
  ℕ, zero, suc, ℤ, Bool, true, false, List, [], ◌∷◌, ◌++◌, ◌≡◌, if◌then◌else◌, wrap_int64, ◌+ℤ◌,
}
use p2pft.Progress.Bar.{
  Line, drawn, newline, Bar, set_label, should_render, Call, labels, sets, ticks, finishes,
}

-- Where a goroutine stands: outside of the bar, at the lock of `render`, at its `Fprintf`, or at
-- the `Fprintln` of `Finish`. `ends` says whether `Finish` has called `render`.
pub data Place : Type 0 where
  outside : Place
  rendering : (ends : Bool) → Place
  printing : (line : Line) (ends : Bool) → Place
  ending : Place

-- What `Set` and `Tick` do while they hold the lock.
unfoldable pub lock_set : ℕ → ℤ → Bar → Place × Bar
lock_set now c b =
    if should_render now c b
    then (rendering false, record b { current = c; last = now })
    else (outside, record b { current = c })

-- What `Finish` does while it holds the lock.
unfoldable pub lock_finish : Bar → Place × Bar
lock_finish b =
    if b.done then (outside, b) else (rendering true, record b { done = true; current = b.total })

-- A call, up to where it lets go of the lock.
abbrev pub enter : Call → Bar → Place × Bar
enter (labels t) b = (outside, set_label t b)
enter (sets now c) b = lock_set now c b
enter (ticks now delta) b = lock_set now (wrap_int64 (b.current +ℤ delta)) b
enter finishes b = lock_finish b

-- The next step of a goroutine that is in a call.
unfoldable pub go_on : Place → Bar → Place × Bar
go_on outside b = (outside, b)
go_on (rendering ends) b = (printing (drawn b.label b.current b.total b.width) ends, b)
go_on (printing line ends) b =
    (if ends then ending else outside, record b { out = b.out ++ line ∷ [] })
go_on ending b = (outside, record b { out = b.out ++ newline ∷ [] })

-- One of the goroutines calls, or goes on.
pub data Turn : List Place × Bar → List Place × Bar → Type 0 where
  enters :
      (before after : List Place) (k : Call) (b : Bar)
      → Turn (before ++ outside ∷ after, b) (before ++ (enter k b).0 ∷ after, (enter k b).1)
  goes :
      (before after : List Place) (p : Place) (b : Bar)
      → Turn (before ++ p ∷ after, b) (before ++ (go_on p b).0 ∷ after, (go_on p b).1)

pub data Run : List Place × Bar → List Place × Bar → Type 0 where
  stays : {s : List Place × Bar} → Run s s
  then_turn : {s t u : List Place × Bar} → Run s t → Turn t u → Run s u

-- Goroutines that have not called yet.
abbrev pub idle : ℕ → List Place
idle zero = []
idle (suc n) = outside ∷ idle n
