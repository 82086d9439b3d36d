-- ===== src/Cmd/Delivery/Both.antt =====
-- A send and a receive that name one code deliver the file.
use p2pft.Prelude.{◌<◌, ◌^◌, ◌≡◌, refl, none, some, [], ◌∷◌, ◌++◌, length, Bytes, Text}
use p2pft.Io.Result.{ok}
use p2pft.Io.Disk.{update}
use p2pft.Io.Disk.Quiet.{IsQuiet, spend-IsQuiet}
use p2pft.Signaling.Messages.{sender_hello_env, receiver_hello_env, peer_addrs_env}
use p2pft.Pairing.Preamble.{preamble}
use p2pft.Transfer.Protocol.{Formats}
use p2pft.Transfer.Resume.{partial_path, meta_path}
use p2pft.Transfer.Resume.Check.{resumable}
use p2pft.Transfer.Peer.{Peer}
use p2pft.Transfer.EndToEnd.{transfer-delivers}
use p2pft.Cmd.World.{Names, Flags, World}
use p2pft.Cmd.Receive.{dest_of, run_receive}
use p2pft.Cmd.Send.{SendWorld, run_send}
use p2pft.Cmd.Delivery.{
  Plan, Agrees, hello, sender_addrs, receiver_addrs, lan_candidates, machine, send_machine, world,
  send_world, found,
}
use p2pft.Cmd.Delivery.Sends.{the_sender, sent_world, hashed, run_send-ok}
use p2pft.Cmd.Delivery.Receives.{the_receiver, received_world, run_receive-ok}

module _ (formats : Formats) (names : Names) (flags : Flags) (p : Plan) (sp rp : Peer) where
  abbrev pub dest : Text
  dest = dest_of names flags (found formats names flags p)

  -- The sender has the file, and `rest` is what the receiver lacks of it.
  pub record Starts (rest : Bytes) : Type 0 where
    pub agrees : Agrees formats names flags p
    pub sender_quiet : IsQuiet sp.disk
    pub receiver_quiet : IsQuiet rp.disk
    pub source : sp.disk.files p.path ≡ some p.content
    pub int64 : length p.content < 2 ^ 63
    pub resumes :
        p.content
        ≡ resumable formats dest
            (hello formats names flags p).size
            (hello formats names flags p).sha256
            rp.disk.files
          ++ rest

  -- Both commands end without an error, on streams inside of TLS on which each reads what the other
  -- has written. What they told the relay is what the relay passed on.
  pub record Delivers : Type 0 where
    pub to_sender : Bytes
    pub to_receiver : Bytes
    pub sent : SendWorld
    pub received : World
    pub sends :
        run_send formats names
          (send_machine formats names flags p to_sender)
          p.path
          (send_world formats names flags p sp)
        ≡ (ok tt, sent)
    pub receives :
        run_receive formats names flags
          (machine formats names flags p to_receiver)
          p.code
          (world formats names flags p rp)
        ≡ (ok tt, received)
    pub heard : sent.side.conn.outgoing ≡ to_receiver
    pub answered : received.peer.conn.outgoing ≡ to_sender
    pub sender_told :
        sent.relay.sent
        ≡ sender_hello_env (hello formats names flags p)
          ∷ peer_addrs_env (sender_addrs formats names flags p)
          ∷ []
    pub receiver_told :
        received.socket.sent
        ≡ receiver_hello_env (record { code = p.code })
          ∷ peer_addrs_env
              (receiver_addrs formats names flags p (lan_candidates formats names flags p))
          ∷ []
    pub named : sent.raw.outgoing ≡ preamble p.code
    pub delivered :
        received.peer.disk.files
        ≡ update
            (update (update rp.disk.files (partial_path dest) none) dest (some p.content))
            (meta_path dest)
            none

  -- If the sender has a file, the relay passes on what each side tells it, a dial of the sender
  -- wins the race and its connection is among the first ten that the receiver accepts, the user
  -- agrees, each side presents in the TLS handshake the certificate of which it has told, the
  -- receiver can resume from a prefix of the file, which may be empty, and no call fails, then
  -- `runSend` and `runReceive` both end without an error: the whole file is at the destination, and
  -- no other file of the receiver but the partial file and its sidecar has changed.
  pub run_send-delivers : (rest : Bytes) → Starts rest → Delivers
  run_send-delivers rest h =
      let s = the_sender formats names flags p sp sp [] in
      let r = the_receiver formats names flags p rp rp [] in
      let (ts, tr, e, files) =
        transfer-delivers formats s r p.content rest (hashed formats names flags p sp sp []) rp
          (record {
            sender_quiet = spend-IsQuiet sp.disk h.sender_quiet;
            receiver_quiet = h.receiver_quiet;
            source = h.source;
            size = refl;
            sha256 = refl;
            int64 = h.int64;
            resumes = h.resumes;
          }) in
      record {
        to_sender = tr.conn.outgoing;
        to_receiver = ts.conn.outgoing;
        sent = sent_world formats names flags p sp ts tr.conn.outgoing;
        received = received_world formats names flags p rp tr ts.conn.outgoing;
        sends =
            run_send-ok formats names flags p h.agrees sp ts tr.conn.outgoing h.sender_quiet
              h.source e.sends;
        receives = run_receive-ok formats names flags p h.agrees rp tr ts.conn.outgoing e.receives;
        heard = refl;
        answered = refl;
        sender_told = refl;
        receiver_told = refl;
        named = refl;
        delivered = files;
      }
