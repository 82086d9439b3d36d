-- ===== src/Cmd/Send.antt =====
-- cmd/p2pft/send.go: runSend.
pub mod States
pub mod Pinned
pub mod Closes
use p2pft.Prelude.{Bool, true, ℤ, List, [], ◌∷◌, ◌++◌, ◌==◌, length, if◌then◌else◌, Text, eqb_text}
use p2pft.Io.Result.{Result, ok, err, message, out_of_fuel}
use p2pft.Io.Exec.{Exec, raise, lift, annotate, ◌>>=◌, ◌>>◌}
use p2pft.Io.Conn.{Conn}
use p2pft.Signaling.Messages.{
  SenderHello, PeerAddrs, SessionCreated, ReceiverJoined, sender_hello_env, peer_addrs_env,
}
use p2pft.Signaling.Client.{Socket, send, close}
use p2pft.Pairing.{write_preamble}
use p2pft.Nat.Punch.{ConnId, Attempt, Outcome, Raced, won, lost, blocked, race_connect}
use p2pft.Transfer.Protocol.{Formats}
use p2pft.Transfer.Checksum.{file_sha256}
use p2pft.Transfer.Peer.{Peer, on_disk}
use p2pft.Transfer.Sender
use p2pft.Transfer.Sender.{Sender}
use p2pft.Tlsx.{Chain, fingerprint_cert, client_config}
use p2pft.Cmd.World.{Names, Tls, verified}
use p2pft.Cmd.Relayed.{read_session_created, read_receiver_joined}

-- What `os.Stat` says.
pub record FileInfo : Type 0 where
  pub is_dir : Bool
  pub size : ℤ

-- The answers of the calls that the command makes once; `dials` are those of the dials to the
-- candidates, in the order in which they come, `net` the connections, and `deadline` the answer of
-- `SetWriteDeadline`.
pub record SendMachine : Type 0 where
  pub stat : Result FileInfo
  pub own_cert : Result Chain
  pub dial_relay : Result (Unit {0})
  pub dials : List Text → List Attempt
  pub net : ConnId → Conn
  pub deadline : Result (Unit {0})
  pub remote : Tls

-- The connection to the relay, the side of the transfer, whose connection is the stream inside of
-- TLS, the connection to the receiver, the connections that have been closed, and the candidates
-- of each race that has begun.
pub record SendWorld : Type 0 where
  pub relay : Socket
  pub side : Peer
  pub raw : Conn
  pub ended : List ConnId
  pub dialled : List (List Text)

abbrev pub on_relay : {A : Type 0} → Exec Socket A → Exec SendWorld A
on_relay n w = ((n w.relay).0, record w { relay = (n w.relay).1 })

abbrev pub on_side : {A : Type 0} → Exec Peer A → Exec SendWorld A
on_side n w = ((n w.side).0, record w { side = (n w.side).1 })

abbrev pub on_raw : {A : Type 0} → Exec Conn A → Exec SendWorld A
on_raw n w = ((n w.raw).0, record w { raw = (n w.raw).1 })

-- `defer client.Close()`
abbrev pub closing_relay : {A : Type 0} → Exec SendWorld A → Exec SendWorld A
closing_relay n w = ((n w).0, record (n w).1 { relay = record (n w).1.relay { closed = true } })

-- `defer tlsConn.Close()`, which closes the connection below.
abbrev pub closing_conn : {A : Type 0} → ConnId → Exec SendWorld A → Exec SendWorld A
closing_conn id n w = ((n w).0, record (n w).1 { ended = id ∷ (n w).1.ended })

-- `rawConn.Close()` where the step before has failed; otherwise on to `next`.
abbrev pub or_close :
    ConnId → Result (Unit {0}) → Exec SendWorld (Unit {0}) → Exec SendWorld (Unit {0})
or_close id (ok u) next w = next w
or_close id (err e) next w = (err e, record w { ended = id ∷ w.ended })

-- `RaceConnect` begins a dial to each candidate.
abbrev pub begin_dials : List Text → Exec SendWorld (Unit {0})
begin_dials cs w = (ok tt, record w { dialled = cs ∷ w.dialled })

-- A receive that blocks for ever has no answer in the source.
abbrev pub race_result : Outcome → Result ConnId
race_result (won c addr) = ok c
race_result (lost e) = err e
race_result blocked = err out_of_fuel

abbrev pub observed_addr : Text → List Text
observed_addr addr = if eqb_text addr [] then [] else addr ∷ []

abbrev pub dial_candidates : PeerAddrs → List Text
dial_candidates p = p.local_candidates ++ observed_addr p.public

module _ (formats : Formats) (names : Names) (m : SendMachine) where
  abbrev pub sender_of : Text → ℤ → Text → Sender
  sender_of path size hash = record {
    source_path = path;
    size = size;
    sha256 = hash;
    on_progress = true;
  }

  -- The transfer over the stream inside of `raw`.
  abbrev pub over_tls : Exec Peer (Unit {0}) → Exec SendWorld (Unit {0})
  over_tls n w =
      let p : Peer = record w.side { conn = m.remote.secure w.raw } in
      ((n p).0, record w { side = (n p).1 })

  -- `runSend` from the preamble on.
  unfoldable pub send_secured : Chain → ReceiverJoined → Sender → Exec SendWorld (Unit {0})
  send_secured cert joined s = do
    annotate "tls handshake" (
        lift (
          verified {D = formats.digest}
            (client_config formats.digest cert joined.peer.cert_fingerprint) m.remote.presented))
    annotate "transfer" (over_tls (Sender.run formats s))

  -- `runSend` from the connection to the receiver on.
  unfoldable pub send_connected :
      Chain → SessionCreated → ReceiverJoined → Sender → ConnId → Exec SendWorld (Unit {0})
  unfolding send_secured
  send_connected cert created joined s id w =
      let preamble : Exec SendWorld (Unit {0}) =
        annotate "write preamble" (on_raw (write_preamble m.deadline created.code)) in
      let w₁ : SendWorld = record w { raw = m.net id } in
      or_close id (preamble w₁).0 (closing_conn id (send_secured cert joined s)) (preamble w₁).1

  -- `RaceConnect`, and `runSend` behind it.
  unfoldable pub send_raced :
      Chain → SessionCreated → ReceiverJoined → Sender → Raced → Exec SendWorld (Unit {0})
  unfolding send_connected
  send_raced cert created joined s r w =
      (do
        id ← annotate "connect to peer" (lift (race_result r.outcome))
        send_connected cert created joined s id)
        (record w { ended = r.closed ++ w.ended })

  -- `runSend` from the message about the receiver on.
  unfoldable pub send_joined :
      Chain → SessionCreated → ReceiverJoined → Sender → Exec SendWorld (Unit {0})
  unfolding send_raced
  send_joined cert created joined s =
      let cs : List Text = dial_candidates joined.peer in
      if eqb_text joined.peer.cert_fingerprint []
      then raise (message "receiver did not provide a cert fingerprint; aborting")
      else if length cs == 0
      then raise (message "receiver advertised no candidate addresses")
      else do
        on_relay close
        begin_dials cs
        send_raced cert created joined s (race_connect cs (m.dials cs))

  -- `runSend` from the connection to the relay on.
  unfoldable pub send_dialled : Text → Chain → Sender → Exec SendWorld (Unit {0})
  unfolding send_joined
  send_dialled path cert s = do
    annotate "send sender_hello" (
        on_relay (
          send (
            sender_hello_env
              (record { filename = names.base path; size = s.size; sha256 = s.sha256 }))))
    created ← on_relay read_session_created
    annotate "send peer_addrs" (
        on_relay (
          send (
            peer_addrs_env (record {
              local_candidates = [];
              public = [];
              cert_fingerprint = fingerprint_cert formats.digest cert;
            }))))
    joined ← on_relay read_receiver_joined
    send_joined cert created joined s

  -- `runSend` behind the call of `os.Stat`.
  unfoldable pub send_stated : Text → FileInfo → Exec SendWorld (Unit {0})
  unfolding send_dialled
  send_stated path info =
      if info.is_dir then raise (message "directory transfer is not supported yet") else do
        hash ← annotate "hash" (on_side (on_disk (file_sha256 formats.digest path)))
        cert ← annotate "generate tls cert" (lift m.own_cert)
        annotate "dial relay" (lift m.dial_relay)
        closing_relay (send_dialled path cert (sender_of path info.size hash))

  -- `runSend`
  unfoldable pub run_send : Text → Exec SendWorld (Unit {0})
  unfolding send_stated
  run_send path = do info ← annotate "stat" (lift m.stat); send_stated path info
