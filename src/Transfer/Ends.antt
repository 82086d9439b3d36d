-- ===== src/Transfer/Ends.antt =====
-- Both sides of a transfer come to an end.
use p2pft.Io.Exec.Ends.{Ended}
use p2pft.Transfer.Protocol.{Formats}
use p2pft.Transfer.Peer.{Peer}
use p2pft.Transfer.Sender
use p2pft.Transfer.Sender.{Sender}
use p2pft.Transfer.Receiver
use p2pft.Transfer.Receiver.{Receiver}

-- Whatever the other side sends and whichever calls fail, neither the sender's `Run` nor the
-- receiver's uses up the rounds that the model gives to its loop: each ends with success or with
-- an error of the program.
pub both_runs-Ended :
    (formats : Formats) (s : Sender) (r : Receiver) (p q : Peer)
    → Ended (Sender.run formats s p).0 × Ended (Receiver.run formats r q).0
both_runs-Ended formats s r p q =
    (Sender.Ends.run-Ended formats s p, Receiver.Ends.run-Ended formats r q)
