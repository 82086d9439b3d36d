-- ===== src/Cmd/Delivery.antt =====
-- runSend and runReceive against each other: the two machines and worlds of one transfer.
pub mod Sends
pub mod Receives
pub mod Both
pub mod System
use p2pft.Prelude.{
  ℤ, ℕ, ◌≤◌, ◌<◌, ◌||◌, ◌≡◌, Bool, true, false, pos, none, List, [], ◌∷◌, ◌++◌, length, All, Bytes,
  Text,
}
use p2pft.Io.Result.{Result, ok}
use p2pft.Io.Conn.{Conn, closed}
use p2pft.Signaling.Messages.{
  SenderHello, PeerAddrs, SessionCreated, SessionFound, ReceiverJoined, session_created_env,
  session_found_env, receiver_joined_env,
}
use p2pft.Pairing.{Arrival, Listener, max_accept_tries, max_preamble_len}
use p2pft.Pairing.Accept.{Loses, queue}
use p2pft.Pairing.Preamble.{preamble}
use p2pft.Nat.Punch.{ConnId, Attempt, won, race_connect}
use p2pft.Transfer.Protocol.{Formats}
use p2pft.Transfer.Hex.{hex_encode}
use p2pft.Transfer.Peer.{Peer}
use p2pft.Tlsx.{Chain, fingerprint}
use p2pft.Cmd.World.{Names, Flags, Machine, World, prompt_yn}
use p2pft.Cmd.Receive.{candidates}
use p2pft.Cmd.Send.{SendMachine, SendWorld, dial_candidates}

-- What the world does while a file is sent. `seen` are the addresses that the relay observes,
-- `losers` the connections that the receiver accepts before that of the sender, `arrived` is the
-- sender's connection at the receiver, and `more` what the sender writes behind the preamble.
pub record Plan : Type 0 where
  pub path : Text
  pub code : Text
  pub expires_in : ℤ
  pub content : Bytes
  pub sender_leaf : Bytes
  pub sender_rest : Chain
  pub sender_seen : Text
  pub receiver_leaf : Bytes
  pub receiver_rest : Chain
  pub receiver_seen : Text
  pub dials : List Text → List Attempt
  pub net : ConnId → Conn
  pub winner : ConnId
  pub port : Text
  pub lan : Result (List Text)
  pub line : Result Text
  pub losers : List Arrival
  pub arrived : Conn
  pub more : Bytes
  pub later : List (Result Arrival)

-- A stream without a fault, on which `b` will be read.
abbrev pub stream : Bytes → Conn
stream b = record { incoming = b; ending = closed; outgoing = []; room = none }

module _ (formats : Formats) (names : Names) (flags : Flags) (p : Plan) where
  abbrev pub hello : SenderHello
  hello = record {
    filename = names.base p.path;
    size = pos (length p.content);
    sha256 = hex_encode (formats.digest.sum p.content);
  }

  abbrev pub sender_addrs : PeerAddrs
  sender_addrs = record {
    local_candidates = [];
    public = [];
    cert_fingerprint = fingerprint formats.digest p.sender_leaf;
  }

  -- The receiver's listener has the port that `Machine` says.
  abbrev pub receiver_addrs : List Text → PeerAddrs
  receiver_addrs addrs = record {
    local_candidates = addrs;
    public = [];
    cert_fingerprint = fingerprint formats.digest p.receiver_leaf;
  }

  -- The receiver's machine, with `b` to be read inside of TLS.
  abbrev pub machine : Bytes → Machine
  machine b = record {
    port = ok p.port;
    lan = p.lan;
    cert = ok (p.receiver_leaf ∷ p.receiver_rest);
    dial = ok tt;
    mkdir = ok tt;
    line = p.line;
    tls = record { presented = ok (p.sender_leaf ∷ p.sender_rest); secure = λ _. stream b };
  }

  abbrev pub lan_candidates : List Text
  lan_candidates = candidates names flags (machine []) p.port

  abbrev pub send_machine : Bytes → SendMachine
  send_machine b = record {
    stat = ok (record { is_dir = false; size = pos (length p.content) });
    own_cert = ok (p.sender_leaf ∷ p.sender_rest);
    dial_relay = ok tt;
    dials = p.dials;
    net = p.net;
    deadline = ok tt;
    remote = record { presented = ok (p.receiver_leaf ∷ p.receiver_rest); secure = λ _. stream b };
  }

  -- The relay passes on what the two sides have said, with the addresses that it has seen.
  abbrev pub code_given : SessionCreated
  code_given = record { code = p.code; expires_in = p.expires_in }

  abbrev pub joined : ReceiverJoined
  joined = record { peer = record (receiver_addrs lan_candidates) { public = p.receiver_seen } }

  abbrev pub found : SessionFound
  found = record {
    filename = hello.filename;
    size = hello.size;
    sha256 = hello.sha256;
    peer = record sender_addrs { public = p.sender_seen };
  }

  abbrev pub send_world : Peer → SendWorld
  send_world sp = record {
    relay = record {
      reads = ok (ok (session_created_env code_given)) ∷ ok (ok (receiver_joined_env joined)) ∷ [];
      writes = [];
      sent = [];
      closed = false;
    };
    side = sp;
    raw = stream [];
    ended = [];
    dialled = [];
  }

  abbrev pub world : Peer → World
  world rp = record {
    socket = record {
      reads = ok (ok (session_found_env found)) ∷ [];
      writes = [];
      sent = [];
      closed = false;
    };
    listener = record {
      arrivals = queue p.losers (record { conn = p.arrived; deadline = ok tt }) p.later;
      closed = [];
    };
    peer = rp;
  }

  -- The race is won, the code has the length of a code, the user agrees, and the connection that
  -- the sender has won is among the first ten that the receiver accepts.
  pub record Agrees : Type 0 where
    pub addr : Text
    pub wins :
        (race_connect (dial_candidates joined.peer) (p.dials (dial_candidates joined.peer))).outcome
        ≡ won p.winner addr
    pub sound : p.net p.winner ≡ stream []
    pub short : length p.code ≤ max_preamble_len
    pub consent : (flags.auto_accept || prompt_yn names p.line) ≡ true
    pub few : length p.losers < max_accept_tries
    pub lose : All (Loses p.code) p.losers
    pub arrives : p.arrived.incoming ≡ preamble p.code ++ p.more
