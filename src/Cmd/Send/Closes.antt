-- ===== src/Cmd/Send/Closes.antt =====
-- Every connection to the receiver that has been opened is closed, once.
use p2pft.Prelude.{
  ◌≡◌, refl, ap, ◌∙◌, ◌⊎◌, inl, inr, List, [], ◌∷◌, ◌++◌, ◌==◌, length, Text, eqb_text,
}
use p2pft.Io.Result.{Result, ok, err}
use p2pft.Io.Exec.{Exec, annotate, lift, ◌>>◌}
use p2pft.Io.Exec.Keeps.{Keeps, Keeps-annotate, Keeps-lift, Keeps-raise, keeps_rules}
use p2pft.Io.Exec.Only.{Only, Only-of-Keeps, Only-if, Only-bind}
use p2pft.Io.Conn.{Conn}
use p2pft.Signaling.Messages.{SessionCreated, ReceiverJoined, Envelope}
use p2pft.Signaling.Client.{Socket, send, close}
use p2pft.Pairing.{write_preamble}
use p2pft.Nat.Punch.{ConnId, Outcome, won, lost, blocked, Raced, race_connect}
use p2pft.Nat.Punch.Winner.{opened, held, race_connect-Settled}
use p2pft.Transfer.Protocol.{Formats}
use p2pft.Transfer.Peer.{Peer, on_disk}
use p2pft.Transfer.Sender.{Sender}
use p2pft.Tlsx.{Chain}
use p2pft.Cmd.World.{Names}
use p2pft.Cmd.Relayed.{read_session_created, read_receiver_joined}
use p2pft.Transfer.Checksum.{file_sha256}
use p2pft.Cmd.Send.{
  FileInfo, SendMachine, SendWorld, on_relay, on_side, closing_relay, begin_dials, over_tls,
  dial_candidates, sender_of, send_secured, send_connected, send_raced, send_joined, send_dialled,
  send_stated, run_send,
}

module _ (formats : Formats) (names : Names) (m : SendMachine) (ids : List ConnId)
    (races : List (List Text)) where
  -- The connections that have been closed are `ids`, and the races that have begun are `races`.
  pub record Ended (w : SendWorld) : Type 0 where
    pub ended : w.ended ≡ ids
    pub dialled : w.dialled ≡ races

  -- A race for some candidates has begun besides, and all that its dials have opened is closed.
  pub record Drained (w : SendWorld) : Type 0 where
    pub candidates : List Text
    pub dialled : w.dialled ≡ candidates ∷ races
    pub ended : w.ended ≡ opened (m.dials candidates) ++ ids

  send-Ended : (e : Envelope) → Keeps Ended (on_relay (send e))
  send-Ended e = record { at = λ w h. record { ended = h.ended; dialled = h.dialled } }

  on_relay-Ended : {A : Type 0} (n : Exec Socket A) → Keeps Ended (on_relay n)
  on_relay-Ended n = record { at = λ w h. record { ended = h.ended; dialled = h.dialled } }

  on_side-Ended : {A : Type 0} (n : Exec Peer A) → Keeps Ended (on_side n)
  on_side-Ended n = record { at = λ w h. record { ended = h.ended; dialled = h.dialled } }

  over_tls-Ended : (n : Exec Peer (Unit {0})) → Keeps Ended (over_tls formats names m n)
  over_tls-Ended n = record { at = λ w h. record { ended = h.ended; dialled = h.dialled } }

  send_secured-Ended :
      (cert : Chain) (joined : ReceiverJoined) (s : Sender)
      → Keeps Ended (send_secured formats names m cert joined s)
  unfolding send_secured
  send_secured-Ended cert joined s = search (keeps_rules, over_tls-Ended)

module _ (formats : Formats) (names : Names) (m : SendMachine) where
  -- Whatever comes of it, a connection that was won is closed.
  send_connected-Ended :
      (cert : Chain) (created : SessionCreated) (joined : ReceiverJoined) (s : Sender) (id : ConnId)
      (w : SendWorld)
      → Ended formats names m
          (id ∷ w.ended)
          w.dialled
          (send_connected formats names m cert created joined s id w).1
  unfolding send_connected
  send_connected-Ended cert created joined s id w =
      split (write_preamble m.deadline created.code (m.net id)) refl
    where
      split :
          (r : Result (Unit {0}) × Conn)
          → write_preamble m.deadline created.code (m.net id) ≡ r
          → Ended formats names m
              (id ∷ w.ended)
              w.dialled
              (send_connected formats names m cert created joined s id w).1
      split (ok u, c) e = rw e (
          let h =
            (send_secured-Ended formats names m w.ended w.dialled cert joined s).at
              (record w { raw = c }) (record { ended = refl; dialled = refl }) in
          record { ended = ap (λ ids. id ∷ ids) h.ended; dialled = h.dialled })
      split (err x, c) e = rw e (record { ended = refl; dialled = refl })

  send_raced-Ended :
      (cert : Chain) (created : SessionCreated) (joined : ReceiverJoined) (s : Sender) (r : Raced)
      (w : SendWorld)
      → Ended formats names m
          ((held r.outcome ++ r.closed) ++ w.ended)
          w.dialled
          (send_raced formats names m cert created joined s r w).1
  unfolding send_raced
  send_raced-Ended cert created joined s r w = split r.outcome refl
    where
      split :
          (o : Outcome)
          → r.outcome ≡ o
          → Ended formats names m
              ((held r.outcome ++ r.closed) ++ w.ended)
              w.dialled
              (send_raced formats names m cert created joined s r w).1
      split (won id addr) e =
          rw e (
            send_connected-Ended cert created joined s id
              (record w { ended = r.closed ++ w.ended }))
      split (lost x) e = rw e (record { ended = refl; dialled = refl })
      split blocked e = rw e (record { ended = refl; dialled = refl })

module _ (formats : Formats) (names : Names) (m : SendMachine)
    (answered : (cs : List Text) → length (m.dials cs) ≡ length cs) (ids : List ConnId)
    (races : List (List Text)) where
  abbrev Closes : Exec SendWorld (Unit {0}) → Type 0
  Closes n =
      Only (Ended formats names m ids races) (Drained formats names m ids races)
        (Ended formats names m ids races) n

  ends : (w : SendWorld) → Ended formats names m ids races w → Ended formats names m ids races w
  ends w h = h

  raced-Closes :
      (cert : Chain) (created : SessionCreated) (joined : ReceiverJoined) (s : Sender)
      (cs : List Text)
      → Closes (do
        begin_dials cs
        send_raced formats names m cert created joined s (race_connect cs (m.dials cs)))
  raced-Closes cert created joined s cs = record {
    at = λ w h.
        let k =
          send_raced-Ended formats names m cert created joined s (race_connect cs (m.dials cs))
            (record w { dialled = cs ∷ w.dialled }) in
        inr (record {
          candidates = cs;
          dialled = k.dialled ∙ ap (λ (x : List (List Text)). cs ∷ x) h.dialled;
          ended =
              k.ended
              ∙ ap (λ x. x ++ w.ended) (race_connect-Settled cs (m.dials cs) (answered cs)).no_leak
              ∙ ap (λ x. opened (m.dials cs) ++ x) h.ended;
        });
  }

  send_joined-Closes :
      (cert : Chain) (created : SessionCreated) (joined : ReceiverJoined) (s : Sender)
      → Closes (send_joined formats names m cert created joined s)
  unfolding send_joined
  send_joined-Closes cert created joined s =
      Only-if (eqb_text joined.peer.cert_fingerprint []) _ _
        (λ e. Only-of-Keeps _ (Keeps-raise _) ends)
        (λ e.
          Only-if (length (dial_candidates joined.peer) == 0) _ _
            (λ k. Only-of-Keeps _ (Keeps-raise _) ends)
            (λ k.
              Only-bind (on_relay close) _ ends ends
                (on_relay-Ended formats names m ids races close)
                (λ u closed. raced-Closes cert created joined s (dial_candidates joined.peer))))

  send_dialled-Closes :
      (path : Text) (cert : Chain) (s : Sender) → Closes (send_dialled formats names m path cert s)
  unfolding send_dialled
  send_dialled-Closes path cert s =
      Only-bind _ _ ends ends
        (Keeps-annotate "send sender_hello" _ (send-Ended formats names m ids races _))
        (λ u sent.
          Only-bind (on_relay read_session_created) _ ends ends
            (on_relay-Ended formats names m ids races read_session_created)
            (λ created first.
              Only-bind _ _ ends ends
                (Keeps-annotate "send peer_addrs" _ (send-Ended formats names m ids races _))
                (λ u sent.
                  Only-bind (on_relay read_receiver_joined) _ ends ends
                    (on_relay-Ended formats names m ids races read_receiver_joined)
                    (λ joined second. send_joined-Closes cert created joined s))))

  closing_relay-Closes : (n : Exec SendWorld (Unit {0})) → Closes n → Closes (closing_relay n)
  closing_relay-Closes n k = record {
    at = λ w h. elim (k.at w h) [
      | inl none_yet ↦ inl (record { ended = none_yet.ended; dialled = none_yet.dialled })
      | inr d ↦ inr (record { candidates = d.candidates; dialled = d.dialled; ended = d.ended })
    ];
  }

  send_stated-Closes :
      (path : Text) (info : FileInfo) → Closes (send_stated formats names m path info)
  unfolding send_stated
  send_stated-Closes path info =
      Only-if info.is_dir _ _ (λ e. Only-of-Keeps _ (Keeps-raise _) ends)
        (λ e.
          Only-bind _ _ ends ends
            (Keeps-annotate "hash" _
              (on_side-Ended formats names m ids races (on_disk (file_sha256 formats.digest path))))
            (λ hash h.
              Only-bind _ _ ends ends (Keeps-annotate "generate tls cert" _ (Keeps-lift m.own_cert))
                (λ cert c.
                  Only-bind _ _ ends ends (Keeps-annotate "dial relay" _ (Keeps-lift m.dial_relay))
                    (λ u d. closing_relay-Closes _ (
                      send_dialled-Closes path cert
                        (sender_of formats names m path info.size hash))))))

module _ (formats : Formats) (names : Names) (m : SendMachine) where
  -- With one answer for each candidate that is dialled, and whatever fails, `runSend` closes every
  -- connection to the receiver that it has opened, once: either it has begun no race and closed
  -- nothing, or it has begun one, and what it has closed is what the dials of that race have
  -- opened.
  pub run_send-closes :
      (answered : (cs : List Text) → length (m.dials cs) ≡ length cs) (path : Text) (w : SendWorld)
      → Ended formats names m w.ended w.dialled (run_send formats names m path w).1
        ⊎ Drained formats names m w.ended w.dialled (run_send formats names m path w).1
  unfolding run_send
  run_send-closes answered path w =
      (Only-bind (annotate "stat" (lift m.stat)) (send_stated formats names m path) (λ w h. h)
          (λ w h. h) (Keeps-annotate "stat" _ (Keeps-lift m.stat))
          (λ info gave. send_stated-Closes formats names m answered w.ended w.dialled path info)).at
        w (record { ended = refl; dialled = refl })
