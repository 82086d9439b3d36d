-- ===== src/Cmd/World.antt =====
-- What the commands take from the machine on which they run.
pub mod Handshake
use p2pft.Prelude.{Bool, true, false, ◌||◌, if◌then◌else◌, List, Text, codes, eqb_text}
use p2pft.Io.Result.{Result, ok, err}
use p2pft.Io.Exec.{Exec}
use p2pft.Io.Conn.{Conn}
use p2pft.Signaling.Client.{Socket}
use p2pft.Pairing.{Listener}
use p2pft.Transfer.Protocol.{Digest}
use p2pft.Transfer.Peer.{Peer}
use p2pft.Tlsx.{Chain, TlsConfig}

-- path/filepath, net and strings.
pub record Names : Type 0 where
  pub base : Text → Text
  pub join : Text → Text → Text
  pub join_host_port : Text → Text → Text
  pub trim_space : Text → Text
  pub to_lower : Text → Text

-- The flags of main.go.
pub record Flags : Type 0 where
  pub output_dir : Text
  pub auto_accept : Bool
  pub advertise : List Text

-- crypto/tls: what the peer presents in the handshake, or why there is none, and the stream inside
-- of a connection.
pub record Tls : Type 0 where
  pub presented : Result Chain
  pub secure : Conn → Conn

-- The answers of the calls that a command makes once. `port` is that of the listener, `lan` the
-- answer of DiscoverLocalAddrs, and `line` what stands on the standard input.
pub record Machine : Type 0 where
  pub port : Result Text
  pub lan : Result (List Text)
  pub cert : Result Chain
  pub dial : Result (Unit {0})
  pub mkdir : Result (Unit {0})
  pub line : Result Text
  pub tls : Tls

-- The connection to the relay, the listener, and the side of the transfer.
pub record World : Type 0 where
  pub socket : Socket
  pub listener : Listener
  pub peer : Peer

abbrev pub on_socket : {A : Type 0} → Exec Socket A → Exec World A
on_socket m w = ((m w.socket).0, record w { socket = (m w.socket).1 })

abbrev pub on_listener : {A : Type 0} → Exec Listener A → Exec World A
on_listener m w = ((m w.listener).0, record w { listener = (m w.listener).1 })

-- `defer client.Close()`
abbrev pub closing : {A : Type 0} → Exec World A → Exec World A
closing m w = ((m w).0, record (m w).1 { socket = record (m w).1.socket { closed = true } })

-- A transfer over the connection `c`.
abbrev pub on_conn_of : {A : Type 0} → Conn → Exec Peer A → Exec World A
on_conn_of c m w =
    let p : Peer = record w.peer { conn = c } in ((m p).0, record w { peer = (m p).1 })

-- `HandshakeContext` fails where the peer presents nothing or the callback refuses what it does.
abbrev pub verified : {D : Digest} → TlsConfig D → Result Chain → Result (Unit {0})
verified config (ok chain) = config.verify_peer_certificate chain
verified config (err e) = err e

-- The side of the server, which asks a client for a certificate only where the configuration
-- requires one: without it the callback is not called.
abbrev pub verified_client : {D : Digest} → TlsConfig D → Result Chain → Result (Unit {0})
verified_client config r = if config.require_client_cert then verified config r else ok tt

-- util.go: `promptYN`
unfoldable pub prompt_yn : Names → Result Text → Bool
prompt_yn names (err e) = false
prompt_yn names (ok line) =
    let ans = names.to_lower (names.trim_space line) in
    eqb_text ans (codes "y") || eqb_text ans (codes "yes")
