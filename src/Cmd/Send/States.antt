-- ===== src/Cmd/Send/States.antt =====
-- What has been done and found out at the points of `runSend`.
use p2pft.Prelude.{◌≡◌, ◌≢◌, refl, ap, ◌∙◌, ◌⊎◌, inl, inr, [], ◌∷◌, Bytes}
use p2pft.Io.Result.{ok}
use p2pft.Io.Exec.{Exec}
use p2pft.Io.Exec.Keeps.{Keeps}
use p2pft.Io.Exec.Only.{Only, Leads}
use p2pft.Signaling.Messages.{
  SessionCreated, ReceiverJoined, Envelope, session_created_env, receiver_joined_env,
}
use p2pft.Signaling.Client.{Socket, send, next_read, later_reads}
use p2pft.Signaling.Client.Sent.{send-reads}
use p2pft.Pairing.{write_preamble}
use p2pft.Nat.Punch.{ConnId, race_connect}
use p2pft.Transfer.Protocol.{Formats}
use p2pft.Tlsx.{Chain, fingerprint}
use p2pft.Cmd.World.{Names}
use p2pft.Cmd.Relayed.{read_session_created}
use p2pft.Cmd.Relayed.Sound.{read_session_created-reads}
use p2pft.Cmd.Send.{SendMachine, SendWorld, on_relay, closing_relay, race_result, dial_candidates}

module _ (formats : Formats) (names : Names) (m : SendMachine) (w₀ : SendWorld) where
  -- Nothing has been read or written inside of TLS.
  pub record Silent (w : SendWorld) : Type 0 where
    pub stream : w.side.conn ≡ w₀.side.conn

  -- Nor has the relay been read.
  pub record Fresh (w : SendWorld) : Type 0 where
    pub stream : w.side.conn ≡ w₀.side.conn
    pub reads : w.relay.reads ≡ w₀.relay.reads

  -- Nor has the relay been read twice.
  pub record Coded (w : SendWorld) : Type 0 where
    pub stream : w.side.conn ≡ w₀.side.conn
    pub reads : w.relay.reads ≡ later_reads w₀.relay.reads

  -- What has been found out before the transfer: the relay's two messages, the second with a
  -- fingerprint, the winner of the race for the addresses that the relay gave, which has taken the
  -- code whole, and a peer with this fingerprint.
  pub record Pinned (w : SendWorld) : Type 0 where
    pub created : SessionCreated
    pub coded : next_read w₀.relay.reads ≡ ok (ok (session_created_env created))
    pub joined : ReceiverJoined
    pub relayed : next_read (later_reads w₀.relay.reads) ≡ ok (ok (receiver_joined_env joined))
    pub fingerprinted : joined.peer.cert_fingerprint ≢ []
    pub id : ConnId
    pub raced :
        race_result
          (race_connect
            (dial_candidates joined.peer)
            (m.dials (dial_candidates joined.peer))).outcome
        ≡ ok id
    pub named : write_preamble m.deadline created.code (m.net id) ≡ (ok tt, w.raw)
    pub leaf : Bytes
    pub rest : Chain
    pub presented : m.remote.presented ≡ ok (leaf ∷ rest)
    pub pinned : fingerprint formats.digest leaf ≡ joined.peer.cert_fingerprint

  -- What is known when the race begins.
  pub record Relayed (created : SessionCreated) (joined : ReceiverJoined) : Type 0 where
    pub coded : next_read w₀.relay.reads ≡ ok (ok (session_created_env created))
    pub relayed : next_read (later_reads w₀.relay.reads) ≡ ok (ok (receiver_joined_env joined))

  pub send-Fresh : (e : Envelope) → Keeps Fresh (on_relay (send e))
  send-Fresh e = record {
    at = λ w h. record { stream = h.stream; reads = send-reads e w.relay ∙ h.reads };
  }

  pub send-Coded : (e : Envelope) → Keeps Coded (on_relay (send e))
  send-Coded e = record {
    at = λ w h. record { stream = h.stream; reads = send-reads e w.relay ∙ h.reads };
  }

  pub on_relay-Silent : {A : Type 0} (n : Exec Socket A) → Keeps Silent (on_relay n)
  on_relay-Silent n = record { at = λ w h. record { stream = h.stream } }

  pub read-Coded : Leads Fresh Coded (on_relay read_session_created)
  read-Coded = record {
    at = λ w h. record {
      stream = h.stream;
      reads = read_session_created-reads w.relay ∙ ap later_reads h.reads;
    };
  }

  pub of_Fresh : (w : SendWorld) → Fresh w → Silent w
  of_Fresh w h = record { stream = h.stream }

  pub of_Coded : (w : SendWorld) → Coded w → Silent w
  of_Coded w h = record { stream = h.stream }

  pub same : (w : SendWorld) → Fresh w → Fresh w
  same w h = h

  -- Neither looks at the connection to the relay or at what has been closed.
  pub elsewhere :
      (w w' : SendWorld)
      → w'.side.conn ≡ w.side.conn
      → w'.raw ≡ w.raw
      → Silent w ⊎ Pinned w
      → Silent w' ⊎ Pinned w'
  elsewhere w w' stream raw (inl silent) = inl (record { stream = stream ∙ silent.stream })
  elsewhere w w' stream raw (inr p) = inr (record {
    created = p.created;
    coded = p.coded;
    joined = p.joined;
    relayed = p.relayed;
    fingerprinted = p.fingerprinted;
    id = p.id;
    raced = p.raced;
    named = rw raw p.named;
    leaf = p.leaf;
    rest = p.rest;
    presented = p.presented;
    pinned = p.pinned;
  })

  pub closing_relay-Only :
      (n : Exec SendWorld (Unit {0}))
      → Only Silent Pinned Fresh n
      → Only Silent Pinned Fresh (closing_relay n)
  closing_relay-Only n k = record { at = λ w h. elsewhere (n w).1 _ refl refl (k.at w h) }
