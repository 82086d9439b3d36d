-- ===== src/Cmd/Receive/Consent.antt =====
-- The receiver's disk changes only with the user's consent, and for the sender of whom the relay
-- has told.
use p2pft.Prelude.{◌≡◌, ◌≢◌, refl, sym, ap, ◌∙◌, ◌⊎◌, inl, inr, true, List, [], Text, eqb_text}
use p2pft.Io.Result.{ok}
use p2pft.Io.Exec.{Exec, annotate, lift}
use p2pft.Io.Exec.Keeps.{Keeps-annotate, Keeps-lift, Keeps-raise}
use p2pft.Io.Exec.Only.{Only, Gave, Only-of-Keeps, Only-if, Only-bind, Gave-annotate}
use p2pft.Io.Conn.{Conn}
use p2pft.Io.Disk.{Disk}
use p2pft.Signaling.Messages.{SessionFound, session_found_env, peer_addrs_env, receiver_hello_env}
use p2pft.Signaling.Client.{send, close, next_read}
use p2pft.Cmd.World.Handshake.{verified_leaf}
use p2pft.Pairing.{Listener, accept_with_code}
use p2pft.Transfer.Protocol.{Formats}
use p2pft.Transfer.Receiver.Atomic.{run-keeps_others}
use p2pft.Tlsx.{Chain, fingerprint_cert, server_config}
use p2pft.Cmd.World.{
  Names, Flags, Machine, World, on_socket, on_listener, closing, verified_client, prompt_yn,
}
use p2pft.Cmd.Relayed.{read_session_found}
use p2pft.Cmd.Relayed.Sound.{read_session_found_sound}
use p2pft.Cmd.Receive.{
  ask_user, receiver_of, candidates, run_accepted, run_found, run_dialled, run_receive,
}
use p2pft.Cmd.Receive.States.{
  Untouched, Before, Unread, Agreed, before, untouched, on_socket-Before, send-Unread,
  on_listener-Keeps, ask_consent, ask_user-Keeps,
}

module _ (formats : Formats) (names : Names) (flags : Flags) (m : Machine) (w₀ : World) where
  module _ (code : Text) where
    closing-Only :
        {A : Type 0} {n : Exec World A}
        → Only
            (Untouched formats names flags m w₀)
            (Agreed formats names flags m w₀ code)
            (Unread formats names flags m w₀)
            n
        → Only
            (Untouched formats names flags m w₀)
            (Agreed formats names flags m w₀ code)
            (Unread formats names flags m w₀)
            (closing n)
    closing-Only k = record {
      at = λ w h. elim (k.at w h) [
        | inl same ↦ inl (record { disk = same.disk })
        | inr a ↦ inr (record {
          found = a.found;
          relayed = a.relayed;
          fingerprinted = a.fingerprinted;
          consent = a.consent;
          conn = a.conn;
          named = a.named;
          leaf = a.leaf;
          rest = a.rest;
          presented = a.presented;
          pinned = a.pinned;
          others = a.others;
        })
      ];
    }

    run_accepted-Only :
        (cert : Chain) (found : SessionFound) (c : Conn)
        → next_read w₀.socket.reads ≡ ok (ok (session_found_env found))
        → found.peer.cert_fingerprint ≢ []
        → (flags.auto_accept ≡ true) ⊎ (prompt_yn names m.line ≡ true)
        → (accept_with_code code w₀.listener).0 ≡ ok c
        → Only
            (Untouched formats names flags m w₀)
            (Agreed formats names flags m w₀ code)
            (Untouched formats names flags m w₀)
            (run_accepted formats names flags m cert found c)
    unfolding run_accepted
    run_accepted-Only cert found c relayed printed consent named =
        Only-bind
          (annotate "tls handshake" (
            lift (
              verified_client {D = formats.digest}
                (server_config formats.digest cert found.peer.cert_fingerprint) m.tls.presented)))
          _ (λ w h. h) (λ w h. h) (record { at = λ w h. h })
          (λ u gave.
            let (leaf, rest, presented, pinned) =
              verified_leaf formats.digest found.peer.cert_fingerprint
                (server_config formats.digest cert found.peer.cert_fingerprint) m.tls.presented
                (λ c. refl) (Gave-annotate "tls handshake" (lift _) gave).2 in
            record {
              at = λ w h. inr (record {
                found = found;
                relayed = relayed;
                fingerprinted = printed;
                consent = consent;
                conn = c;
                named = named;
                leaf = leaf;
                rest = rest;
                presented = presented;
                pinned = pinned;
                others = λ q n p k.
                    run-keeps_others formats (receiver_of formats names flags m found)
                      (record w.peer { conn = m.tls.secure c }) q n p k
                    ∙ ap (λ (x : Disk). x.files q) h.disk;
              });
            })

    accepted_conn :
        (c : Conn)
        → Gave
            (Before formats names flags m w₀)
            (annotate "accept" (on_listener (accept_with_code code)))
            c
        → (accept_with_code code w₀.listener).0 ≡ ok c
    accepted_conn c g =
        let (w, h, e) = Gave-annotate "accept" (on_listener (accept_with_code code)) g in
        ap (λ (l : Listener). (accept_with_code code l).0) (sym h.listener) ∙ e

    run_found-Only :
        (addrs : List Text) (cert : Chain) (found : SessionFound)
        → next_read w₀.socket.reads ≡ ok (ok (session_found_env found))
        → Only
            (Untouched formats names flags m w₀)
            (Agreed formats names flags m w₀ code)
            (Before formats names flags m w₀)
            (run_found formats names flags m code addrs cert found)
    unfolding run_found
    run_found-Only addrs cert found relayed =
        let hello = peer_addrs_env (record {
          local_candidates = addrs;
          public = [];
          cert_fingerprint = fingerprint_cert formats.digest cert;
        }) in
        Only-if (eqb_text found.peer.cert_fingerprint []) _ _
          (λ e. Only-of-Keeps _ (Keeps-raise _) (untouched formats names flags m w₀))
          (λ e.
            let printed : found.peer.cert_fingerprint ≢ [] =
              λ no_print. cc (e, ap (λ (t : Text). eqb_text t []) no_print) in
            Only-bind _ _ same (untouched formats names flags m w₀)
              (Keeps-annotate "create output directory" _ (Keeps-lift m.mkdir))
              (λ u made.
                Only-bind (ask_user formats names flags m) _ same
                  (untouched formats names flags m w₀) (ask_user-Keeps formats names flags m w₀)
                  (λ u consented.
                    Only-bind _ _ same (untouched formats names flags m w₀)
                      (Keeps-annotate "send peer_addrs" _
                        (on_socket-Before formats names flags m w₀ (send hello)))
                      (λ u sent.
                        Only-bind _ _ same (untouched formats names flags m w₀)
                          (on_socket-Before formats names flags m w₀ close)
                          (λ u closed.
                            Only-bind _ _ (untouched formats names flags m w₀) (λ w h. h)
                              (Keeps-annotate "accept" _ (
                                (on_listener-Keeps formats names flags m w₀)
                                  (accept_with_code code)))
                              (λ c accepted.
                                run_accepted-Only cert found c relayed printed
                                  (ask_consent formats names flags m w₀ consented.0 consented.2)
                                  (accepted_conn c accepted)))))))
      where
        same : (w : World) → Before formats names flags m w₀ w → Before formats names flags m w₀ w
        same w h = h

    run_dialled-Only :
        (addrs : List Text) (cert : Chain)
        → Only
            (Untouched formats names flags m w₀)
            (Agreed formats names flags m w₀ code)
            (Unread formats names flags m w₀)
            (run_dialled formats names flags m code addrs cert)
    unfolding run_dialled
    run_dialled-Only addrs cert =
        Only-bind _ _ (λ w h. h)
          (λ w h. untouched formats names flags m w₀ w (before formats names flags m w₀ w h))
          (Keeps-annotate "send receiver_hello" _
            (send-Unread formats names flags m w₀ (receiver_hello_env (record { code = code }))))
          (λ u sent.
            Only-bind _ _ (before formats names flags m w₀) (untouched formats names flags m w₀)
              (on_socket-Before formats names flags m w₀ read_session_found)
              (λ found gave. run_found-Only addrs cert found (relayed_by found gave)))
      where
        relayed_by :
            (found : SessionFound)
            → Gave (Unread formats names flags m w₀) (on_socket read_session_found) found
            → next_read w₀.socket.reads ≡ ok (ok (session_found_env found))
        relayed_by found (w, h, e) =
            ap next_read (sym h.reads) ∙ read_session_found_sound w.socket found e

    run_receive-Only :
        Only
          (Untouched formats names flags m w₀)
          (Agreed formats names flags m w₀ code)
          (Unread formats names flags m w₀)
          (run_receive formats names flags m code)
    unfolding run_receive
    run_receive-Only =
        Only-bind _ _ same base (Keeps-annotate "listen" _ (Keeps-lift m.port)) (λ port p.
          Only-bind _ _ same base (Keeps-annotate "generate tls cert" _ (Keeps-lift m.cert))
            (λ cert c.
              Only-bind _ _ same base (Keeps-annotate "dial relay" _ (Keeps-lift m.dial))
                (λ u dialled.
                  closing-Only (run_dialled-Only (candidates names flags m port) cert))))
      where
        same : (w : World) → Unread formats names flags m w₀ w → Unread formats names flags m w₀ w
        same w h = h

        base :
            (w : World) → Unread formats names flags m w₀ w → Untouched formats names flags m w₀ w
        base w h = untouched formats names flags m w₀ w (before formats names flags m w₀ w h)

module _ (formats : Formats) (names : Names) (flags : Flags) (m : Machine) where
  -- Whatever the relay, the sender and the machine do, `runReceive` leaves the disk as it was, but
  -- for the output directory, unless: the relay has told of a sender with a fingerprint, the user
  -- has agreed, by the flag or at the prompt, a connection has named the code, and its peer has
  -- presented a certificate with this fingerprint. Then no file but the one that was announced,
  -- its partial file and its sidecar may have changed.
  pub run_receive-Agreed :
      (code : Text) (w : World)
      → Untouched formats names flags m w (run_receive formats names flags m code w).1
        ⊎ Agreed formats names flags m w code (run_receive formats names flags m code w).1
  run_receive-Agreed code w =
      (run_receive-Only formats names flags m w code).at w
        (record { disk = refl; listener = refl; reads = refl })
