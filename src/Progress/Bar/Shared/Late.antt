-- ===== src/Progress/Bar/Shared/Late.antt =====
-- Two goroutines that get in each other's way.
use p2pft.Prelude.{
  ℕ, ◌≡◌, refl, ◌∙◌, ℤ, Bool-cases, inl, inr, true, false, List, [], ◌∷◌, ◌++◌, append_assoc,
}
use p2pft.Progress.Bar.{Line, drawn, newline, Bar, should_render, sets, finishes}
use p2pft.Progress.Bar.Shared.{
  Place, outside, rendering, printing, ending, lock_set, lock_finish, go_on, enters, goes, Run,
  stays, then_turn,
}

Run-trans : {s t u : List Place × Bar} → Run s t → Run t u → Run s u
Run-trans r stays = r
Run-trans r (then_turn q k) = then_turn (Run-trans r q) k

due-open : (now : ℕ) (c : ℤ) (b : Bar) → should_render now c b ≡ true → b.done ≡ false
due-open now c b due = elim (Bool-cases b.done) [ inl e ↦ absurd (cc (e, due)) | inr e ↦ e ]

set_due :
    (now : ℕ) (c : ℤ) (b : Bar) (others : List Place)
    → should_render now c b ≡ true
    → Run
        (outside ∷ others, b)
        (
          printing (drawn b.label c b.total b.width) false ∷ others,
          record b { current = c; last = now },
        )
unfolding lock_set go_on
set_due now c b others due =
    then_turn (then_turn stays (rw due at (enters [] others (sets now c) b)))
      (goes [] others (rendering false) (record b { current = c; last = now }))

lock_finish_open :
    (b : Bar)
    → b.done ≡ false
    → lock_finish b ≡ (rendering true, record b { done = true; current = b.total })
unfolding lock_finish
lock_finish_open b e = rw e refl

finish_open :
    (p : Place) (b : Bar)
    → b.done ≡ false
    → Run
        (p ∷ outside ∷ [], b)
        (
          p ∷ outside ∷ [],
          record b {
            done = true;
            current = b.total;
            out = (b.out ++ drawn b.label b.total b.total b.width ∷ []) ++ newline ∷ [];
          },
        )
unfolding go_on
finish_open p b e =
    let r : Bar = record b { done = true; current = b.total } in
    let l : Line = drawn b.label b.total b.total b.width in
    then_turn
      (then_turn
        (then_turn (then_turn stays (rw (lock_finish_open b e) at (enters (p ∷ []) [] finishes b)))
          (goes (p ∷ []) [] (rendering true) r))
        (goes (p ∷ []) [] (printing l true) r))
      (goes (p ∷ []) [] ending (record r { out = b.out ++ l ∷ [] }))

-- Two goroutines, one in `Set` and one in `Finish`: a call of `Set` that is due has decided to draw
-- its line before the other is done, and draws it behind the end of the line.
pub late_line :
    (now : ℕ) (c : ℤ) (b : Bar)
    → should_render now c b ≡ true
    → (end : Bar) × Run (outside ∷ outside ∷ [], b) (outside ∷ outside ∷ [], end)
      × (end.done ≡ true)
      × (end.out
          ≡ b.out
            ++ drawn b.label b.total b.total b.width
              ∷ newline
              ∷ drawn b.label c b.total b.width
              ∷ [])
unfolding go_on
late_line now c b due =
    let l : Line = drawn b.label b.total b.total b.width in
    let k : Line = drawn b.label c b.total b.width in
    let done : Bar = record b {
      last = now;
      done = true;
      current = b.total;
      out = (b.out ++ l ∷ []) ++ newline ∷ [];
    } in
    (
      record done { out = done.out ++ k ∷ [] },
      Run-trans (set_due now c b (outside ∷ []) due) (
          then_turn
            (finish_open (printing k false) (record b { current = c; last = now })
              (due-open now c b due))
            (goes [] (outside ∷ []) (printing k false) done)),
      refl,
      append_assoc (b.out ++ l ∷ []) (newline ∷ []) (k ∷ [])
          ∙ append_assoc b.out (l ∷ []) (newline ∷ k ∷ []),
    )
