-- ===== src/Pairing.antt =====
-- cmd/p2pft/pairing.go: the preamble of a connection, and the search for the right connection.
pub mod Preamble
pub mod Accept
use p2pft.Prelude.{
  ℕ, zero, suc, ◌*◌, ◌+◌, ◌/◌, ◌%◌, ◌^◌, List, [], ◌∷◌, ◌++◌, ltb, if◌then◌else◌, length, Bytes,
  Text, eqb_text,
}
use p2pft.Io.Result.{Error, Result, ok, err, failed, message, wrap}
use p2pft.Io.Exec.{Exec, pure, raise, lift, annotate, ◌>>=◌, ◌>>◌}
use p2pft.Io.Conn.{Conn, read_full, write}

abbrev pub max_accept_tries : ℕ
max_accept_tries = 10

abbrev pub max_preamble_len : ℕ
max_preamble_len = 256

-- `binary.BigEndian.PutUint16`
abbrev pub put_uint16 : ℕ → Bytes
put_uint16 n = (n / 2 ^ 8 % 256) ∷ (n % 256) ∷ []

-- `binary.BigEndian.Uint16`, which reads two bytes.
abbrev pub uint16 : Bytes → ℕ
uint16 (a ∷ b ∷ _) = a * 2 ^ 8 + b
uint16 _ = 0

-- `deadline` is what `conn.SetWriteDeadline` answers.
unfoldable pub write_preamble : Result (Unit {0}) → Text → Exec Conn (Unit {0})
write_preamble deadline payload =
    if ltb max_preamble_len (length payload)
    then raise (message "preamble payload too large")
    else do
      lift deadline
      annotate "write preamble header" (write (put_uint16 (length payload % 2 ^ 16)))
      annotate "write preamble payload" (write payload)

abbrev pub preamble_body : ℕ → Exec Conn Text
preamble_body n =
    if ltb max_preamble_len n then raise (message "preamble payload too large") else read_full n

-- `deadline` is what `conn.SetReadDeadline` answers.
unfoldable pub read_preamble : Result (Unit {0}) → Exec Conn Text
read_preamble deadline = do lift deadline; hdr ← read_full 2; preamble_body (uint16 hdr)

-- A connection that `Accept` returns, with the answer of its `SetReadDeadline`.
pub record Arrival : Type 0 where
  pub conn : Conn
  pub deadline : Result (Unit {0})

-- The answers of the calls of `Accept` to come, and the connections closed so far. Behind the
-- last answer the listener's deadline has passed.
pub record Listener : Type 0 where
  pub arrivals : List (Result Arrival)
  pub closed : List Conn

abbrev pub next_arrival : List (Result Arrival) → Result Arrival
next_arrival [] = err failed
next_arrival (a ∷ rest) = a

abbrev pub later_arrivals : List (Result Arrival) → List (Result Arrival)
later_arrivals [] = []
later_arrivals (a ∷ rest) = rest

-- `l.Accept()`
abbrev pub accept : Exec Listener Arrival
accept l = (next_arrival l.arrivals, record l { arrivals = later_arrivals l.arrivals })

-- `conn.Close()`
abbrev pub close : Conn → Exec Listener (Unit {0})
close c l = (ok tt, record l { closed = l.closed ++ c ∷ [] })

-- The loop's body behind `Accept`, with the rounds to come as `next`.
abbrev pub match_code :
    Text → (Error → Exec Listener Conn) → Result Text × Conn → Exec Listener Conn
match_code code next (err e, c) = do close c; next (wrap "read preamble" e)
match_code code next (ok got, c) =
    if eqb_text got code then pure c else do close c; next (message "preamble code mismatch")

-- The loop of `acceptWithCode`: the number of tries that are left, and `lastErr`.
unfoldable pub accept_loop : Text → ℕ → Error → Exec Listener Conn
accept_loop code zero last = raise (wrap "no matching connection" last)
accept_loop code (suc tries) last = do
  a ← annotate "accept" accept
  match_code code (accept_loop code tries) (read_preamble a.deadline a.conn)

-- `lastErr` is nil before the first try.
unfoldable pub accept_with_code : Text → Exec Listener Conn
unfolding accept_loop
accept_with_code code = accept_loop code max_accept_tries (message "nil")
