-- ===== src/Cmd/Delivery/Sends.antt =====
-- runSend comes to its transfer, and ends as that does.
use p2pft.Prelude.{
  ◌≡◌, refl, false, true, some, pos, List, [], ◌∷◌, ◌++◌, ◌==◌, length, Bytes, Text, eqb_text,
  eqb_text_refl, arith,
}
use p2pft.Io.Result.{ok}
use p2pft.Io.Disk.{spend}
use p2pft.Io.Disk.Quiet.{IsQuiet, read_file-ok, eqb_text-ne}
use p2pft.Signaling.Messages.{sender_hello_env, peer_addrs_env}
use p2pft.Signaling.Client.{send, read}
use p2pft.Pairing.{write_preamble}
use p2pft.Pairing.Preamble.{preamble, write_preamble-ok}
use p2pft.Nat.Punch.{race_connect}
use p2pft.Transfer.Protocol.{Formats}
use p2pft.Transfer.Hex.{hex_encode}
use p2pft.Transfer.Checksum.{file_sha256}
use p2pft.Transfer.Peer.{Peer}
use p2pft.Transfer.Sender
use p2pft.Transfer.Sender.{Sender}
use p2pft.Transfer.EndToEnd.{linked}
use p2pft.Tlsx.{Chain, fingerprint, fingerprint_cert, verify_peer_fingerprint, client_config}
use p2pft.Tlsx.Pinning.{fingerprint-ne-nil}
use p2pft.Cmd.World.{Names, Flags, verified}
use p2pft.Cmd.Relayed.{read_session_created, read_receiver_joined}
use p2pft.Cmd.Send.{
  SendWorld, sender_of, dial_candidates, send_secured, send_connected, send_raced, send_joined,
  send_dialled, send_stated, run_send,
}
use p2pft.Cmd.Delivery.{Plan, Agrees, hello, sender_addrs, send_machine, send_world, joined, stream}

module _ (formats : Formats) (names : Names) (flags : Flags) (p : Plan) (sp ts : Peer)
    (b : Bytes) where
  abbrev pub the_sender : Sender
  the_sender =
      sender_of formats names (send_machine formats names flags p b) p.path (pos (length p.content))
        (hex_encode (formats.digest.sum p.content))

  abbrev pub hashed : Peer
  hashed = record sp { disk = spend sp.disk }

  abbrev peers : List Text
  peers = dial_candidates (joined formats names flags p).peer

  -- The world behind a run.
  abbrev pub sent_world : SendWorld
  sent_world = record {
    relay = record {
      reads = [];
      writes = [];
      sent =
          sender_hello_env (hello formats names flags p)
          ∷ peer_addrs_env (sender_addrs formats names flags p)
          ∷ [];
      closed = true;
    };
    side = ts;
    raw = record (stream []) { outgoing = preamble p.code };
    ended = p.winner ∷ ((race_connect peers (p.dials peers)).closed ++ []);
    dialled = peers ∷ [];
  }

module _ (formats : Formats) (names : Names) (flags : Flags) (p : Plan)
    (a : Agrees formats names flags p) (sp ts : Peer) (b : Bytes) where
  has_print : (leaf : Bytes) → eqb_text (fingerprint formats.digest leaf) [] ≡ false
  has_print leaf = eqb_text-ne _ _ (fingerprint-ne-nil formats.digest leaf)

  hashes :
      IsQuiet sp.disk
      → sp.disk.files p.path ≡ some p.content
      → file_sha256 formats.digest p.path sp.disk
        ≡ (ok (hex_encode (formats.digest.sum p.content)), spend sp.disk)
  unfolding file_sha256
  hashes q f = rw (read_file-ok sp.disk q p.path p.content f) refl

  shakes :
      (cert : Chain)
      → verified {D = formats.digest}
          (client_config formats.digest cert (fingerprint formats.digest p.receiver_leaf))
          (ok (p.receiver_leaf ∷ p.receiver_rest))
        ≡ ok tt
  unfolding verify_peer_fingerprint
  shakes cert =
      rw (has_print p.receiver_leaf, eqb_text_refl (fingerprint formats.digest p.receiver_leaf))
        refl

  names_code :
      write_preamble (ok tt) p.code (p.net p.winner)
      ≡ (ok tt, record (stream []) { outgoing = preamble p.code })
  names_code = rw a.sound (write_preamble-ok (stream []) p.code refl a.short)

  someone : (length (peers formats names flags p sp ts b) == 0) ≡ false
  someone = ground arith

  pub run_send-ok :
      IsQuiet sp.disk
      → sp.disk.files p.path ≡ some p.content
      → Sender.run formats
          (the_sender formats names flags p sp ts b)
          (linked (hashed formats names flags p sp ts b) b)
        ≡ (ok tt, ts)
      → run_send formats names
          (send_machine formats names flags p b)
          p.path
          (send_world formats names flags p sp)
        ≡ (ok tt, sent_world formats names flags p sp ts b)
  unfolding run_send send_stated send_dialled send_joined send_raced send_connected send_secured
      send read_session_created read_receiver_joined read fingerprint_cert
  run_send-ok q f k =
      rw
        (
          hashes q f,
          has_print p.receiver_leaf,
          someone,
          a.wins,
          names_code,
          shakes (p.sender_leaf ∷ p.sender_rest),
          k,
        )
        refl
