-- ===== src/Cmd/Send/Pinned.antt =====
-- The sender speaks inside of TLS only to the receiver of whom the relay has told.
use p2pft.Prelude.{
  ◌++◌, ◌≡◌, ◌≢◌, refl, sym, ap, ◌∙◌, ◌⊎◌, inl, inr, [], ◌==◌, length, Text, eqb_text,
}
use p2pft.Io.Result.{Result, ok, err}
use p2pft.Io.Exec.{annotate, lift}
use p2pft.Io.Exec.Keeps.{Keeps, Keeps-annotate, Keeps-lift, Keeps-raise}
use p2pft.Io.Exec.Only.{Only, Only-of-Keeps, Only-if, Only-bind, Only-lead, Gave-annotate}
use p2pft.Io.Conn.{Conn}
use p2pft.Signaling.Messages.{SessionCreated, ReceiverJoined}
use p2pft.Signaling.Client.{close, next_read}
use p2pft.Pairing.{write_preamble}
use p2pft.Nat.Punch.{ConnId, Raced, race_connect}
use p2pft.Transfer.Protocol.{Formats}
use p2pft.Transfer.Checksum.{file_sha256}
use p2pft.Transfer.Peer.{on_disk}
use p2pft.Transfer.Sender.{Sender}
use p2pft.Tlsx.{Chain, client_config}
use p2pft.Cmd.World.Handshake.{verified_leaf}
use p2pft.Cmd.World.{Names, verified}
use p2pft.Cmd.Relayed.{read_session_created, read_receiver_joined}
use p2pft.Cmd.Relayed.Sound.{read_session_created_sound, read_receiver_joined_sound}
use p2pft.Cmd.Send.{
  begin_dials, FileInfo, SendMachine, SendWorld, on_relay, on_side, race_result, dial_candidates,
  sender_of, send_secured, send_connected, send_raced, send_joined, send_dialled, send_stated,
  run_send,
}
use p2pft.Cmd.Send.States.{
  Silent, Fresh, Pinned, Relayed, send-Fresh, send-Coded, on_relay-Silent, read-Coded, of_Fresh,
  of_Coded, same, elsewhere, closing_relay-Only,
}

module _ (formats : Formats) (names : Names) (m : SendMachine) (w₀ : SendWorld) where
  module _ (cert : Chain) (s : Sender) (created : SessionCreated) (joined : ReceiverJoined)
      (told : Relayed formats names m w₀ created joined)
      (printed : joined.peer.cert_fingerprint ≢ []) where
    -- The connection `id` has taken the code.
    record Named (id : ConnId) (w : SendWorld) : Type 0 where
      stream : w.side.conn ≡ w₀.side.conn
      named : write_preamble m.deadline created.code (m.net id) ≡ (ok tt, w.raw)

    of_Named : (id : ConnId) (w : SendWorld) → Named id w → Silent formats names m w₀ w
    of_Named id w h = record { stream = h.stream }

    send_secured-Only :
        (id : ConnId)
        → race_result
            (race_connect
              (dial_candidates joined.peer)
              (m.dials (dial_candidates joined.peer))).outcome
          ≡ ok id
        → Only
            (Silent formats names m w₀)
            (Pinned formats names m w₀)
            (Named id)
            (send_secured formats names m cert joined s)
    unfolding send_secured
    send_secured-Only id raced =
        Only-bind _ _ (λ w h. h) (of_Named id)
          (Keeps-annotate "tls handshake" _ (
            Keeps-lift (
              verified {D = formats.digest}
                (client_config formats.digest cert joined.peer.cert_fingerprint)
                m.remote.presented)))
          (λ u gave.
            let (leaf, rest, presented, pinned) =
              verified_leaf formats.digest joined.peer.cert_fingerprint
                (client_config formats.digest cert joined.peer.cert_fingerprint) m.remote.presented
                (λ c. refl) (Gave-annotate "tls handshake" (lift _) gave).2 in
            record {
              at = λ w h. inr (record {
                created = created;
                coded = told.coded;
                joined = joined;
                relayed = told.relayed;
                fingerprinted = printed;
                id = id;
                raced = raced;
                named = h.named;
                leaf = leaf;
                rest = rest;
                presented = presented;
                pinned = pinned;
              });
            })

    send_connected-Only :
        (id : ConnId)
        → race_result
            (race_connect
              (dial_candidates joined.peer)
              (m.dials (dial_candidates joined.peer))).outcome
          ≡ ok id
        → Only
            (Silent formats names m w₀)
            (Pinned formats names m w₀)
            (Silent formats names m w₀)
            (send_connected formats names m cert created joined s id)
    unfolding send_connected
    send_connected-Only id raced = record {
      at = λ w h. split w h (write_preamble m.deadline created.code (m.net id)) refl;
    }
      where
        split :
            (w : SendWorld)
            → Silent formats names m w₀ w
            → (r : Result (Unit {0}) × Conn) → write_preamble m.deadline created.code (m.net id) ≡ r
            → (Silent formats names m w₀)
                (send_connected formats names m cert created joined s id w).1
              ⊎ (Pinned formats names m w₀)
                  (send_connected formats names m cert created joined s id w).1
        split w h (ok u, c) e = rw e (
            (elsewhere formats names m w₀)
              (send_secured formats names m cert joined s (record w { raw = c })).1 _ refl refl
              ((send_secured-Only id raced).at (record w { raw = c })
                (record { stream = h.stream; named = e })))
        split w h (err x, c) e = rw e (inl (record { stream = h.stream }))

    send_raced-Only :
        (r : Raced)
        → r ≡ race_connect (dial_candidates joined.peer) (m.dials (dial_candidates joined.peer))
        → Only
            (Silent formats names m w₀)
            (Pinned formats names m w₀)
            (Silent formats names m w₀)
            (send_raced formats names m cert created joined s r)
    unfolding send_raced
    send_raced-Only r e = record {
      at = λ w h.
          (Only-bind (annotate "connect to peer" (lift (race_result r.outcome)))
              (λ id. send_connected formats names m cert created joined s id) (λ w h. h) (λ w h. h)
              (Keeps-annotate "connect to peer" _ (Keeps-lift (race_result r.outcome)))
              (λ id gave. send_connected-Only id (
                ap (λ (x : Raced). race_result x.outcome) (sym e)
                ∙ (Gave-annotate "connect to peer" (lift (race_result r.outcome)) gave).2))).at
            (record w { ended = r.closed ++ w.ended }) (record { stream = h.stream });
    }

  send_joined-Only :
      (cert : Chain) (s : Sender) (created : SessionCreated) (joined : ReceiverJoined)
      → Relayed formats names m w₀ created joined
      → Only
          (Silent formats names m w₀)
          (Pinned formats names m w₀)
          (Silent formats names m w₀)
          (send_joined formats names m cert created joined s)
  unfolding send_joined
  send_joined-Only cert s created joined told =
      Only-if (eqb_text joined.peer.cert_fingerprint []) _ _
        (λ e. Only-of-Keeps _ (Keeps-raise _) (λ w h. h))
        (λ e.
          Only-if (length (dial_candidates joined.peer) == 0) _ _
            (λ k. Only-of-Keeps _ (Keeps-raise _) (λ w h. h))
            (λ k.
              Only-bind _ _ (λ w h. h) (λ w h. h) (on_relay-Silent formats names m w₀ close)
                (λ u closed.
                  Only-bind (begin_dials (dial_candidates joined.peer))
                    (λ v. send_raced formats names m cert created joined s (
                      race_connect (dial_candidates joined.peer)
                        (m.dials (dial_candidates joined.peer))))
                    (λ w h. h) (λ w h. h) (record { at = λ w h. record { stream = h.stream } })
                    (λ v begun.
                      send_raced-Only cert s created joined told
                        (λ no_print. cc (e, ap (λ (t : Text). eqb_text t []) no_print)) _ refl))))

  send_dialled-Only :
      (path : Text) (cert : Chain) (s : Sender)
      → Only
          (Silent formats names m w₀)
          (Pinned formats names m w₀)
          (Fresh formats names m w₀)
          (send_dialled formats names m path cert s)
  unfolding send_dialled
  send_dialled-Only path cert s =
      Only-bind _ _ (same formats names m w₀) (of_Fresh formats names m w₀)
        (Keeps-annotate "send sender_hello" _ (send-Fresh formats names m w₀ _))
        (λ u sent.
          Only-lead (on_relay read_session_created) _ (read-Coded formats names m w₀)
            (of_Coded formats names m w₀)
            (λ created first.
              Only-bind _ _ (λ w h. h) (of_Coded formats names m w₀)
                (Keeps-annotate "send peer_addrs" _ (send-Coded formats names m w₀ _))
                (λ u sent.
                  Only-bind (on_relay read_receiver_joined) _ (of_Coded formats names m w₀)
                    (λ w h. h) (on_relay-Silent formats names m w₀ read_receiver_joined)
                    (λ joined second. send_joined-Only cert s created joined (record {
                      coded =
                          ap next_read (sym first.1.reads)
                          ∙ read_session_created_sound first.0.relay created first.2;
                      relayed =
                          ap next_read (sym second.1.reads)
                          ∙ read_receiver_joined_sound second.0.relay joined second.2;
                    })))))

  on_disk-Fresh :
      (path : Text)
      → Keeps (Fresh formats names m w₀) (on_side (on_disk (file_sha256 formats.digest path)))
  on_disk-Fresh path = record { at = λ w h. record { stream = h.stream; reads = h.reads } }

  send_stated-Only :
      (path : Text) (info : FileInfo)
      → Only
          (Silent formats names m w₀)
          (Pinned formats names m w₀)
          (Fresh formats names m w₀)
          (send_stated formats names m path info)
  unfolding send_stated
  send_stated-Only path info =
      Only-if info.is_dir _ _ (λ e. Only-of-Keeps _ (Keeps-raise _) (of_Fresh formats names m w₀))
        (λ e.
          Only-bind _ _ (same formats names m w₀) (of_Fresh formats names m w₀)
            (Keeps-annotate "hash" _ (on_disk-Fresh path))
            (λ hash h.
              Only-bind _ _ (same formats names m w₀) (of_Fresh formats names m w₀)
                (Keeps-annotate "generate tls cert" _ (Keeps-lift m.own_cert))
                (λ cert c.
                  Only-bind _ _ (same formats names m w₀) (of_Fresh formats names m w₀)
                    (Keeps-annotate "dial relay" _ (Keeps-lift m.dial_relay))
                    (λ u d. closing_relay-Only formats names m w₀ _ (
                      send_dialled-Only path cert
                        (sender_of formats names m path info.size hash))))))

module _ (formats : Formats) (names : Names) (m : SendMachine) where
  -- Whatever the relay, the receiver and the machine do, `runSend` writes nothing inside of TLS,
  -- unless: the relay has given a code and told of a receiver with a fingerprint, one of the dials
  -- to the receiver's addresses has won the race, its connection has taken the preamble with the
  -- code, and nothing else outside of TLS, and the peer has presented a certificate with this
  -- fingerprint.
  pub run_send-Pinned :
      (path : Text) (w : SendWorld)
      → Silent formats names m w (run_send formats names m path w).1
        ⊎ Pinned formats names m w (run_send formats names m path w).1
  unfolding run_send
  run_send-Pinned path w =
      (Only-bind (annotate "stat" (lift m.stat)) (send_stated formats names m path) (λ w h. h)
          (of_Fresh formats names m w) (Keeps-annotate "stat" _ (Keeps-lift m.stat))
          (λ info gave. send_stated-Only formats names m w path info)).at
        w (record { stream = refl; reads = refl })
