-- ===== src/Cmd/Delivery/Receives.antt =====
-- runReceive comes to its transfer, and ends as that does.
use p2pft.Prelude.{◌≡◌, refl, false, true, [], ◌∷◌, ◌++◌, map, Bytes, eqb_text, eqb_text_refl}
use p2pft.Io.Result.{ok}
use p2pft.Io.Conn.{Conn}
use p2pft.Signaling.Messages.{receiver_hello_env, peer_addrs_env}
use p2pft.Signaling.Client.{send, read}
use p2pft.Pairing.{accept_with_code}
use p2pft.Pairing.Accept.{after, accept_with_code-finds}
use p2pft.Pairing.Preamble.{read_preamble-ok}
use p2pft.Transfer.Protocol.{Formats}
use p2pft.Transfer.Peer.{Peer}
use p2pft.Transfer.Receiver
use p2pft.Transfer.Receiver.{Receiver}
use p2pft.Transfer.EndToEnd.{linked}
use p2pft.Io.Disk.Quiet.{eqb_text-ne}
use p2pft.Tlsx.{Chain, fingerprint, fingerprint_cert, verify_peer_fingerprint, server_config}
use p2pft.Tlsx.Pinning.{fingerprint-ne-nil}
use p2pft.Cmd.World.{Names, Flags, World, verified_client}
use p2pft.Cmd.Relayed.{read_session_found}
use p2pft.Cmd.Receive.{receiver_of, run_accepted, run_found, run_dialled, run_receive}
use p2pft.Cmd.Delivery.{Plan, Agrees, receiver_addrs, lan_candidates, machine, world, found}

module _ (formats : Formats) (names : Names) (flags : Flags) (p : Plan) (rp tr : Peer)
    (b : Bytes) where
  abbrev pub the_receiver : Receiver
  the_receiver =
      receiver_of formats names flags (machine formats names flags p b)
        (found formats names flags p)

  -- The sender's connection behind its preamble.
  abbrev behind : Conn
  behind = record p.arrived { incoming = p.more }

  -- The world behind a run.
  abbrev pub received_world : World
  received_world = record {
    socket = record {
      reads = [];
      writes = [];
      sent =
          receiver_hello_env (record { code = p.code })
          ∷ peer_addrs_env
              (receiver_addrs formats names flags p (lan_candidates formats names flags p))
          ∷ [];
      closed = true;
    };
    listener = record { arrivals = p.later; closed = [] ++ map after p.losers };
    peer = tr;
  }

module _ (formats : Formats) (names : Names) (flags : Flags) (p : Plan)
    (a : Agrees formats names flags p) (rp tr : Peer) (b : Bytes) where
  has_print : eqb_text (fingerprint formats.digest p.sender_leaf) [] ≡ false
  has_print = eqb_text-ne _ _ (fingerprint-ne-nil formats.digest p.sender_leaf)

  shakes :
      (cert : Chain)
      → verified_client {D = formats.digest}
          (server_config formats.digest cert (fingerprint formats.digest p.sender_leaf))
          (ok (p.sender_leaf ∷ p.sender_rest))
        ≡ ok tt
  unfolding verify_peer_fingerprint
  shakes cert = rw (has_print, eqb_text_refl (fingerprint formats.digest p.sender_leaf)) refl

  accepts : accept_with_code p.code (world formats names flags p rp).listener ≡ (
    ok (behind formats names flags p rp tr b),
    record { arrivals = p.later; closed = [] ++ map after p.losers },
  )
  accepts =
      accept_with_code-finds p.code p.losers (record { conn = p.arrived; deadline = ok tt })
        (behind formats names flags p rp tr b) p.later [] a.few a.lose
        (read_preamble-ok p.arrived p.code p.more a.short a.arrives)

  pub run_receive-ok :
      Receiver.run formats (the_receiver formats names flags p rp tr b) (linked rp b) ≡ (ok tt, tr)
      → run_receive formats names flags
          (machine formats names flags p b)
          p.code
          (world formats names flags p rp)
        ≡ (ok tt, received_world formats names flags p rp tr b)
  unfolding run_receive run_dialled run_found run_accepted send read_session_found read
      fingerprint_cert
  run_receive-ok k =
      rw (has_print, a.consent, accepts, shakes (p.receiver_leaf ∷ p.receiver_rest), k) refl
