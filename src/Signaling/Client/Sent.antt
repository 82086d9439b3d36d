-- ===== src/Signaling/Client/Sent.antt =====
-- What `Send` does to the connection.
use p2pft.Prelude.{List, [], ◌∷◌, ◌≡◌, refl}
use p2pft.Io.Result.{Result, ok, err}
use p2pft.Signaling.Messages.{Envelope}
use p2pft.Signaling.Client.{Socket, send, write_answer}

pub send-reads : (e : Envelope) (s : Socket) → (send e s).1.reads ≡ s.reads
unfolding send
send-reads e s = split s.writes
  where
    split : (ws : List (Result (Unit {0}))) → (write_answer ws e s).1.reads ≡ s.reads
    split [] = refl
    split (ok u ∷ ws) = refl
    split (err x ∷ ws) = refl
