-- ===== src/Nat/Punch/Winner.antt =====
-- RaceConnect takes the first answer that is a connection, and closes all other connections.
use p2pft.Prelude.{ℕ, zero, suc, ◌≡◌, refl, List, [], ◌∷◌, ◌++◌, length, Text, arith}
use p2pft.Io.Result.{Error, Result, ok, err, message, wrap}
use p2pft.Nat.Punch.{
  ConnId, Attempt, Outcome, won, lost, blocked, Raced, drain, receive_result, race_loop,
  race_connect, close_late,
}

-- The connections that the dials have opened, in the order of their answers.
abbrev pub opened : List Attempt → List ConnId
opened [] = []
opened (a ∷ xs) = close_late a.answer (opened xs)

-- The first dial that succeeded, if any did.
pub data First : Type 0 where
  nobody : First
  winner : ConnId → Text → First

abbrev pub first_of_two : Result ConnId → Text → First → First
first_of_two (ok c) addr later = winner c addr
first_of_two (err e) addr later = later

abbrev pub first : List Attempt → First
first [] = nobody
first (a ∷ xs) = first_of_two a.answer a.addr (first xs)

-- What the caller holds behind the race.
abbrev pub held : Outcome → List ConnId
held (won c addr) = c ∷ []
held (lost e) = []
held blocked = []

abbrev pub IsWinner : First → Outcome → Type 0
IsWinner (winner c addr) o = o ≡ won c addr
IsWinner nobody o = (e : Error) × (o ≡ lost e)

drain-all :
    (c : ConnId) (addr : Text) (n : ℕ) (xs : List Attempt)
    → length xs ≡ n
    → drain c addr n xs ≡ record { outcome = won c addr; closed = opened xs; pending = [] }
unfolding drain
drain-all c addr zero [] h = refl
drain-all c addr zero (a ∷ xs) h = absurd (omega arith)
drain-all c addr (suc n) [] h = absurd (omega arith)
drain-all c addr (suc n) (a ∷ xs) h = rw (drain-all c addr n xs (omega arith)) refl

-- What is known of a finished race.
pub record Settled (xs : List Attempt) (r : Raced) : Type 0 where
  pub first_wins : IsWinner (first xs) r.outcome
  pub no_leak : held r.outcome ++ r.closed ≡ opened xs
  pub drained : r.pending ≡ []

settle-won :
    (n : ℕ) (c : ConnId) (addr : Text) (xs : List Attempt)
    → length xs ≡ n
    → Settled (record { addr = addr; answer = ok c } ∷ xs) (drain c addr n xs)
settle-won n c addr xs h =
    rw (drain-all c addr n xs h) (record { first_wins = refl; no_leak = refl; drained = refl })

settle :
    (n : ℕ) (r : Result ConnId) (addr : Text) (xs : List Attempt) (next : Error → Raced)
    → length xs ≡ n
    → ((e : Error) → Settled xs (next e))
    → Settled (record { addr = addr; answer = r } ∷ xs) (receive_result r addr n xs next)
settle n (ok c) addr xs next h k = settle-won n c addr xs h
settle n (err e) addr xs next h k = record {
  first_wins = (k e).first_wins;
  no_leak = (k e).no_leak;
  drained = (k e).drained;
}

race_loop-Settled :
    (n : ℕ) (last : Error) (xs : List Attempt) → length xs ≡ n → Settled xs (race_loop n last xs)
unfolding race_loop
race_loop-Settled zero last [] h = record {
  first_wins = (wrap "nat: all dial attempts failed" last, refl);
  no_leak = refl;
  drained = refl;
}
race_loop-Settled zero last (a ∷ xs) h = absurd (omega arith)
race_loop-Settled (suc n) last [] h = absurd (omega arith)
race_loop-Settled (suc n) last (a ∷ xs) h =
    settle n a.answer a.addr xs (λ e. race_loop n e xs) (omega arith)
      (λ e. race_loop-Settled n e xs (omega arith))

-- With one answer for each candidate, in whatever order they come, the race never blocks and
-- leaves no answer in the channel. It returns the connection and the address of the first dial
-- that succeeded, or an error if none did, and the connections that were opened are the one that
-- is returned followed by those that are closed.
pub race_connect-Settled :
    (candidates : List Text) (results : List Attempt)
    → length results ≡ length candidates
    → Settled results (race_connect candidates results)
unfolding race_connect
race_connect-Settled [] [] h = record {
  first_wins = (message "nat: no candidates to dial", refl);
  no_leak = refl;
  drained = refl;
}
race_connect-Settled [] (a ∷ xs) h = absurd (omega arith)
race_connect-Settled (c ∷ cs) results h =
    race_loop-Settled (suc (length cs)) (message "nil") results h
