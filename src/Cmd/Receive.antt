-- ===== src/Cmd/Receive.antt =====
-- cmd/p2pft/receive.go: runReceive.
pub mod States
pub mod Consent
use p2pft.Prelude.{Bool, true, ◌||◌, [], ◌∷◌, ◌++◌, List, if◌then◌else◌, Text, codes, eqb_text}
use p2pft.Io.Result.{Result, ok, err, message}
use p2pft.Io.Exec.{Exec, pure, raise, lift, annotate, ◌>>=◌, ◌>>◌}
use p2pft.Io.Conn.{Conn}
use p2pft.Signaling.Messages.{SessionFound, PeerAddrs, receiver_hello_env, peer_addrs_env}
use p2pft.Signaling.Client.{Socket, send, close}
use p2pft.Pairing.{accept_with_code}
use p2pft.Transfer.Protocol.{Formats}
use p2pft.Transfer.Peer.{Peer}
use p2pft.Transfer.Receiver
use p2pft.Transfer.Receiver.{Receiver}
use p2pft.Tlsx.{Chain, fingerprint_cert, server_config}
use p2pft.Cmd.World.{
  Names, Flags, Tls, Machine, World, on_socket, on_listener, on_conn_of, closing, verified_client,
  prompt_yn,
}
use p2pft.Cmd.Relayed.{read_session_found}

-- A failure of DiscoverLocalAddrs is only a warning.
abbrev pub lan_addrs : Result (List Text) → List Text
lan_addrs (ok addrs) = addrs
lan_addrs (err e) = []

abbrev pub candidates : Names → Flags → Machine → Text → List Text
candidates names flags m port =
    names.join_host_port (codes "127.0.0.1") port ∷ (lan_addrs m.lan ++ flags.advertise)

abbrev pub dest_of : Names → Flags → SessionFound → Text
dest_of names flags found = names.join flags.output_dir (names.base found.filename)

module _ (formats : Formats) (names : Names) (flags : Flags) (m : Machine) where
  abbrev pub ask_user : Exec World (Unit {0})
  ask_user =
      if flags.auto_accept || prompt_yn names m.line
      then pure tt
      else raise (message "transfer declined")

  abbrev pub receiver_of : SessionFound → Receiver
  receiver_of found = record {
    dest = dest_of names flags found;
    size = found.size;
    sha256 = found.sha256;
    on_progress = true;
  }

  -- `runReceive` from the accepted connection on.
  unfoldable pub run_accepted : Chain → SessionFound → Conn → Exec World (Unit {0})
  run_accepted cert found c = do
    annotate "tls handshake" (
        lift (
          verified_client {D = formats.digest}
            (server_config formats.digest cert found.peer.cert_fingerprint) m.tls.presented))
    annotate "transfer" (on_conn_of (m.tls.secure c) (Receiver.run formats (receiver_of found)))

  -- `runReceive` from the message of the relay on.
  unfoldable pub run_found : Text → List Text → Chain → SessionFound → Exec World (Unit {0})
  unfolding run_accepted
  run_found code addrs cert found =
      if eqb_text found.peer.cert_fingerprint []
      then raise (message "sender did not provide a cert fingerprint; aborting")
      else do
        annotate "create output directory" (lift m.mkdir)
        ask_user
        annotate "send peer_addrs" (
            on_socket (
              send (
                peer_addrs_env (record {
                  local_candidates = addrs;
                  public = [];
                  cert_fingerprint = fingerprint_cert formats.digest cert;
                }))))
        on_socket close
        c ← annotate "accept" (on_listener (accept_with_code code))
        run_accepted cert found c

  -- `runReceive` from the connection to the relay on.
  unfoldable pub run_dialled : Text → List Text → Chain → Exec World (Unit {0})
  unfolding run_found
  run_dialled code addrs cert = do
    annotate "send receiver_hello" (on_socket (send (receiver_hello_env (record { code = code }))))
    found ← on_socket read_session_found
    run_found code addrs cert found

  -- `runReceive`
  unfoldable pub run_receive : Text → Exec World (Unit {0})
  unfolding run_dialled
  run_receive code = do
    port ← annotate "listen" (lift m.port)
    cert ← annotate "generate tls cert" (lift m.cert)
    annotate "dial relay" (lift m.dial)
    closing (run_dialled code (candidates names flags m port) cert)
