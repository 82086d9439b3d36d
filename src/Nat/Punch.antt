-- ===== src/Nat/Punch.antt =====
-- internal/nat/punch.go: RaceConnect.
pub mod Winner
use p2pft.Prelude.{ℕ, zero, suc, List, [], ◌∷◌, length, Text}
use p2pft.Io.Result.{Error, Result, ok, err, message, wrap}

-- A connection is named by a number.
abbrev pub ConnId : Type 0
ConnId = ℕ

-- What one dial puts into the channel `results`.
pub record Attempt : Type 0 where
  pub addr : Text
  pub answer : Result ConnId

-- What RaceConnect does: its result, the late connections that the background drain closes, and
-- the results that nobody has taken out of the channel. `blocked` is a receive from the channel
-- that waits for ever.
pub data Outcome : Type 0 where
  won : ConnId → Text → Outcome
  lost : Error → Outcome
  blocked : Outcome

pub record Raced : Type 0 where
  pub outcome : Outcome
  pub closed : List ConnId
  pub pending : List Attempt

-- The drain behind a winner: `remaining` receives, each closing a connection that came late.
abbrev pub close_late : Result ConnId → List ConnId → List ConnId
close_late (ok c) closed = c ∷ closed
close_late (err e) closed = closed

abbrev pub late : Attempt → Raced → Raced
late a r = record r { closed = close_late a.answer r.closed }

unfoldable pub drain : ConnId → Text → ℕ → List Attempt → Raced
drain c addr zero results = record { outcome = won c addr; closed = []; pending = results }
drain c addr (suc remaining) [] = record { outcome = blocked; closed = []; pending = [] }
drain c addr (suc remaining) (a ∷ results) = late a (drain c addr remaining results)

-- The loop over the results, with the number of receives that are left and `lastErr`.
abbrev pub receive_result : Result ConnId → Text → ℕ → List Attempt → (Error → Raced) → Raced
receive_result (ok c) addr left results next = drain c addr left results
receive_result (err e) addr left results next = next e

unfoldable pub race_loop : ℕ → Error → List Attempt → Raced
unfolding drain
race_loop zero last results = record {
  outcome = lost (wrap "nat: all dial attempts failed" last);
  closed = [];
  pending = results;
}
race_loop (suc left) last [] = record { outcome = blocked; closed = []; pending = [] }
race_loop (suc left) last (a ∷ results) =
    receive_result a.answer a.addr left results (λ e. race_loop left e results)

-- `results` are the answers of the dials in the order in which they come; `lastErr` starts as nil.
-- The timeout and the cancellation show as answers that are errors.
unfoldable pub race_connect : List Text → List Attempt → Raced
unfolding race_loop
race_connect [] results = record {
  outcome = lost (message "nat: no candidates to dial");
  closed = [];
  pending = results;
}
race_connect (c ∷ cs) results = race_loop (suc (length cs)) (message "nil") results
