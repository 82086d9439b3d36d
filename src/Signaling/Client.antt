-- ===== src/Signaling/Client.antt =====
-- internal/signaling/client.go: the connection of a program to the relay.
pub mod Sent
use p2pft.Prelude.{List, [], ◌∷◌, ◌++◌, Bool, true}
use p2pft.Io.Result.{Result, ok, err, failed}
use p2pft.Io.Exec.{Exec, lift, annotate, ◌>>=◌}
use p2pft.Signaling.Messages.{Envelope}

-- `reads` and `writes` are the answers of the websocket to the calls to come: what arrives is an
-- envelope or does not decode as one. Behind the last answer a read fails and a write succeeds.
-- The messages of the program always have a JSON text, so the two marshalling errors of `Send` do
-- not arise.
pub record Socket : Type 0 where
  pub reads : List (Result (Result Envelope))
  pub writes : List (Result (Unit {0}))
  pub sent : List Envelope
  pub closed : Bool

abbrev pub next_read : List (Result (Result Envelope)) → Result (Result Envelope)
next_read [] = err failed
next_read (r ∷ rs) = r

abbrev pub later_reads : List (Result (Result Envelope)) → List (Result (Result Envelope))
later_reads [] = []
later_reads (r ∷ rs) = rs

abbrev pub receive : Exec Socket (Result Envelope)
receive s = (next_read s.reads, record s { reads = later_reads s.reads })

-- `Client.Read`
unfoldable pub read : Exec Socket Envelope
read = do arrived ← annotate "read message" receive; annotate "unmarshal envelope" (lift arrived)

abbrev pub write_answer : List (Result (Unit {0})) → Envelope → Exec Socket (Unit {0})
write_answer [] e s = (ok tt, record s { sent = s.sent ++ e ∷ [] })
write_answer (ok u ∷ rs) e s = (ok tt, record s { sent = s.sent ++ e ∷ []; writes = rs })
write_answer (err x ∷ rs) e s = (err x, record s { writes = rs })

-- `Client.Send`
unfoldable pub send : Envelope → Exec Socket (Unit {0})
send e s = write_answer s.writes e s

-- `Client.Close`, whose answer is dropped.
abbrev pub close : Exec Socket (Unit {0})
close s = (ok tt, record s { closed = true })
