-- ===== src/Tests/Bar.antt =====
-- Runs of the progress bar.
use p2pft.Prelude.{
  ℤ, ◌≡◌, refl, pos, List, [], ◌∷◌, ◌++◌, ◌+◌, ℕ, min, length, take, Bytes, Option, none, All, true,
  arith,
}
use p2pft.Io.Result.{Error}
use p2pft.Progress.Bar.{Bar, drawn, newline, new_bar, set, finish_bar, Call, sets, finishes, calls}
use p2pft.Progress.Bar.Shared.{
  Place, outside, rendering, printing, lock_set, lock_finish, go_on, enters, goes, Run, stays,
  then_turn, idle,
}
use p2pft.Progress.Bar.Shared.Sound.{IsLine, newlines, finishing, shared-once}
use p2pft.Progress.Bar.Shared.Late.{late_line}
use p2pft.Progress.Bar.Wrapped.{all_wrapped, wrapped-writes}
use p2pft.Progress.Bar.Lines.{Shows, calls-Shows}

-- A drawn call, one that comes too soon, one that reaches the total, and calls behind the end.
abbrev five_calls : List Call
five_calls =
    sets 60000000 (pos 4)
    ∷ sets 60000001 (pos 5)
    ∷ sets 60000002 (pos 9)
    ∷ finishes
    ∷ sets 900000000 (pos 2)
    ∷ finishes
    ∷ []

-- The tests draw no bar in part.
abbrev no_part : ℤ → ℤ → ℕ → ℤ
no_part current total width = pos 0

calls-Shows_example : Shows no_part (pos 9) (calls five_calls (new_bar (pos 9)))
calls-Shows_example = calls-Shows no_part (pos 9) five_calls

three_lines :
    (calls five_calls (new_bar (pos 9))).out
    ≡ drawn [] (pos 4) (pos 9) 30
      ∷ drawn [] (pos 9) (pos 9) 30
      ∷ drawn [] (pos 9) (pos 9) 30
      ∷ newline
      ∷ []
unfolding set finish_bar
three_lines = refl

-- One goroutine calls `Finish`, and the other `Set` while the first draws.
abbrev two_goroutines : List Place × Bar
two_goroutines = (
  printing (drawn [] (pos 9) (pos 9) 30) true ∷ outside ∷ [],
  record (new_bar (pos 9)) { done = true; current = pos 4 },
)

two_at_once : Run (idle 2, new_bar (pos 9)) two_goroutines
unfolding lock_set lock_finish go_on
two_at_once =
    let done : Bar = record (new_bar (pos 9)) { done = true; current = pos 9 } in
    then_turn
      (then_turn (then_turn stays (enters [] (outside ∷ []) finishes (new_bar (pos 9))))
        (goes [] (outside ∷ []) (rendering true) done))
      (enters (printing (drawn [] (pos 9) (pos 9) 30) true ∷ []) [] (sets 60000000 (pos 4)) done)

shared-once_example :
    All (IsLine (pos 9)) two_goroutines.1.out
    × (newlines two_goroutines.1.out + finishing two_goroutines.0 ≡ 1)
shared-once_example = shared-once (pos 9) 2 two_goroutines.0 two_goroutines.1 two_at_once

late_line_example :
    (end : Bar) × Run (outside ∷ outside ∷ [], new_bar (pos 9)) (outside ∷ outside ∷ [], end)
    × (end.done ≡ true)
    × (end.out ≡ drawn [] (pos 9) (pos 9) 30 ∷ newline ∷ drawn [] (pos 4) (pos 9) 30 ∷ [])
late_line_example = late_line 60000000 (pos 4) (new_bar (pos 9)) refl

-- A writer that takes two bytes of each chunk.
abbrev takes_two : Bytes → Bytes → (ℕ × Option Error) × Bytes
takes_two p w = ((min 2 (length p), none), w ++ take 2 p)

abbrev two_chunks : List (ℕ × Bytes)
two_chunks = (60000000, 1 ∷ 2 ∷ 3 ∷ []) ∷ (60000001, 4 ∷ []) ∷ []

wrapped-writes_example :
    ((all_wrapped takes_two two_chunks ([], new_bar (pos 9))).0 ≡ (2, none) ∷ (1, none) ∷ [])
    × ((all_wrapped takes_two two_chunks ([], new_bar (pos 9))).1.0 ≡ 1 ∷ 2 ∷ 4 ∷ [])
    × ((all_wrapped takes_two two_chunks ([], new_bar (pos 9))).1.1.current ≡ pos 3)
wrapped-writes_example =
    wrapped-writes takes_two two_chunks [] (new_bar (pos 9)) 0 refl (omega arith)
