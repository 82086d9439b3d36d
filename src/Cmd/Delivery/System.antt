-- ===== src/Cmd/Delivery/System.antt =====
-- The sender, the relay and the receiver together.
use p2pft.Prelude.{ℕ, ◌≡◌, sym, ap, ◌∙◌, pos, List, map, Bytes, Text}
use p2pft.Io.Result.{Result, ok}
use p2pft.Signaling.Messages.{Envelope}
use p2pft.Transfer.Protocol.{Formats}
use p2pft.Transfer.Peer.{Peer}
use p2pft.Relay.Session.{session_ttl}
use p2pft.Relay.Server.{Object, Relay, Reach}
use p2pft.Relay.Server.Progress.{first_code, meeting_possible}
use p2pft.Cmd.World.{Names, Flags}
use p2pft.Cmd.Delivery.{
  Plan, hello, sender_addrs, receiver_addrs, lan_candidates, world, send_world,
}
use p2pft.Cmd.Delivery.Both.{Starts, Delivers, run_send-delivers}

-- What a connection reads of what the relay has sent on it.
abbrev pub arriving : List Envelope → List (Result (Result Envelope))
arriving es = map (λ e. ok (ok e)) es

-- The plan at a relay that sees the sender at `addr 0` and the receiver at `addr 1`.
abbrev pub at_relay : (ℕ → Text) → Plan → Plan
at_relay addr p = record p {
  code = first_code;
  expires_in = pos session_ttl;
  sender_seen = addr 0;
  receiver_seen = addr 1;
}

module _ (formats : Formats) (names : Names) (flags : Flags) (quote : Text → Text) (addr : ℕ → Text)
    (heap : ℕ → Object) (plan : Plan) (sp rp : Peer) where
  abbrev placed : Plan
  placed = at_relay addr plan

  -- A run of the relay, and a run of each command, in which each of the three reads what the others
  -- have written: the relay has read what the commands have sent, and they have read what it sent.
  pub record Works : Type 0 where
    pub relay : Relay
    pub reached : Reach quote addr heap relay
    pub delivers : Delivers formats names flags placed sp rp
    pub sender_reads :
        (send_world formats names flags placed sp).relay.reads ≡ arriving (relay.clients 0).sent
    pub receiver_reads :
        (world formats names flags placed rp).socket.reads ≡ arriving (relay.clients 1).sent
    pub sender_said : (relay.clients 0).got ≡ delivers.sent.relay.sent
    pub receiver_said : (relay.clients 1).got ≡ delivers.received.socket.sent

  -- Where a transfer can start as in `run_send-delivers`, with the code that the relay gives out and
  -- the addresses that it sees, there is a run of the relay whose messages are exactly those
  -- that the two commands send and read, and with them both commands end without an error and the
  -- file is delivered.
  pub system-Works : (rest : Bytes) → Starts formats names flags placed sp rp rest → Works
  system-Works rest h =
      let (s, r, m) =
        meeting_possible quote addr heap (hello formats names flags placed)
          (sender_addrs formats names flags placed)
          (receiver_addrs formats names flags placed (lan_candidates formats names flags placed)) in
      let d = run_send-delivers formats names flags placed sp rp rest h in
      record {
        relay = s;
        reached = r;
        delivers = d;
        sender_reads = ap arriving (sym m.sender_told);
        receiver_reads = ap arriving (sym m.receiver_told);
        sender_said = m.sender_said ∙ sym d.sender_told;
        receiver_said = m.receiver_said ∙ sym d.receiver_told;
      }
