-- ===== src/Relay/Server/Telling.antt =====
-- Each move of a handler carries its story on.
use mathlib.Core.Path.{subst}
use p2pft.Prelude.{
  ℕ, zero, suc, ◌≡◌, refl, sym, ap, ◌∙◌, ◌⊎◌, inl, inr, Option, none, some, Bool, true, false,
  ==_iff, List, [], ◌∷◌, ◌++◌, Text, arith, Option-cases, append-nil,
}
use p2pft.Io.Result.{Error, Result, ok, err, message}
use p2pft.Signaling.Messages.{
  SenderHello, PeerAddrs, Envelope, sender_hello, receiver_hello, peer_addrs, session_created,
  session_found, receiver_joined, session_error, unknown, sender_hello_env, receiver_hello_env,
  peer_addrs_env, session_created_env, session_found_env, receiver_joined_env, session_error_env,
  malformed,
}
use p2pft.Signaling.Codes.{generate_code}
use p2pft.Relay.Session.{Session, SessionStore, create, claim}
use p2pft.Relay.Session.Once.{claim_sound}
use p2pft.Relay.Server.{
  Shared, Pc, fresh, coding, announcing, addressing, parked, forwarding, claiming, waiting, finding,
  asking, handing, erring, left, panicked, Wake, channel, done, Answer, Turn, heard, act,
  read_expected, address, created, try_code, retry, serve, ask, claimed, take_joined, wake_receiver,
}
use p2pft.Relay.Server.Moves.{Sound, May, Fine}
use p2pft.Relay.Server.Acts.{act-Fine}
use p2pft.Relay.Server.Story.{Story, Story-grow}

-- `readExpected` gives the addresses of a `PeerAddrs`, or an error.
pub read_expected_cases :
    (r : Result Envelope)
    → ((p : PeerAddrs) × (r ≡ ok (peer_addrs_env p))) ⊎ ((e : Error) × (read_expected r ≡ err e))
read_expected_cases (ok (peer_addrs_env p)) = inl (p, refl)
read_expected_cases (ok (malformed peer_addrs)) = inr (message "encoding/json", refl)
read_expected_cases (err e) = inr (e, refl)
read_expected_cases (ok (sender_hello_env p)) = inr (message "unexpected message type", refl)
read_expected_cases (ok (receiver_hello_env p)) = inr (message "unexpected message type", refl)
read_expected_cases (ok (session_created_env p)) = inr (message "unexpected message type", refl)
read_expected_cases (ok (session_found_env p)) = inr (message "unexpected message type", refl)
read_expected_cases (ok (receiver_joined_env p)) = inr (message "unexpected message type", refl)
read_expected_cases (ok (session_error_env p)) = inr (message "unexpected message type", refl)
read_expected_cases (ok (malformed sender_hello)) = inr (message "unexpected message type", refl)
read_expected_cases (ok (malformed receiver_hello)) = inr (message "unexpected message type", refl)
read_expected_cases (ok (malformed session_created)) = inr (message "unexpected message type", refl)
read_expected_cases (ok (malformed session_found)) = inr (message "unexpected message type", refl)
read_expected_cases (ok (malformed receiver_joined)) = inr (message "unexpected message type", refl)
read_expected_cases (ok (malformed session_error)) = inr (message "unexpected message type", refl)
read_expected_cases (ok (malformed (unknown t))) = inr (message "unexpected message type", refl)

module _ (quote : Text → Text) (observed : Text) (got sent : List Envelope) where
  -- The story of a handler that has made the move `t`.
  abbrev Told : Turn → Type 0
  Told t = Story observed t.shared t.pc (got ++ t.got) (sent ++ t.sent)

  Told-left : (t : Turn) → t.pc ≡ left → Told t
  Told-left t e =
      subst (λ pc. Story observed t.shared pc (got ++ t.got) (sent ++ t.sent)) (sym e) tt

  heard_left : (r : Result Envelope) (sh : Shared) → Told (heard r left sh)
  heard_left (ok e) sh = tt
  heard_left (err e) sh = tt

  -- Neither a move that only reads the heap nor the reading of the first message.
  serve-Told :
      (sh : Shared) (r : Result Envelope)
      → Story observed sh fresh got sent
      → Told (heard r (serve quote r) sh)
  serve-Told sh (err e) s = tt
  serve-Told sh (ok (sender_hello_env h)) (g, e) = rw (g, e) (refl, refl)
  serve-Told sh (ok (receiver_hello_env h)) (g, e) = rw (g, e) (refl, refl)
  serve-Told sh (ok (peer_addrs_env h)) (g, e) = rw e refl
  serve-Told sh (ok (session_created_env h)) (g, e) = rw e refl
  serve-Told sh (ok (session_found_env h)) (g, e) = rw e refl
  serve-Told sh (ok (receiver_joined_env h)) (g, e) = rw e refl
  serve-Told sh (ok (session_error_env h)) (g, e) = rw e refl
  serve-Told sh (ok (malformed sender_hello)) (g, e) = rw e refl
  serve-Told sh (ok (malformed receiver_hello)) (g, e) = rw e refl
  serve-Told sh (ok (malformed peer_addrs)) (g, e) = rw e refl
  serve-Told sh (ok (malformed session_created)) (g, e) = rw e refl
  serve-Told sh (ok (malformed session_found)) (g, e) = rw e refl
  serve-Told sh (ok (malformed receiver_joined)) (g, e) = rw e refl
  serve-Told sh (ok (malformed session_error)) (g, e) = rw e refl
  serve-Told sh (ok (malformed (unknown t))) (g, e) = rw e refl

  module _ (sh : Shared) (sound : Sound sh) where
    retry-Told :
        (hello : SenderHello) (tries k : ℕ)
        → Story observed sh (coding hello tries) got sent
        → Story observed sh (retry hello k) got sent
    retry-Told hello tries zero (g, e) = e
    retry-Told hello tries (suc k) s = s

    created-Told :
        (hello : SenderHello) (tries now : ℕ) (code : Text)
        → Story observed sh (coding hello (suc tries)) got sent
        → Told (created hello tries (create now code hello sh.store) sh)
    unfolding create
    created-Told hello tries now code (g, e) = elim (Option-cases (sh.store.sessions code)) [
      | inl free ↦ rw (free, append-nil got, append-nil sent) (ground arith, e)
      | inr (x, old) ↦
          rw (old, append-nil got, append-nil sent) (retry-Told hello (suc tries) tries (g, e))
    ]

    claimed-Told :
        (code : Text)
        → Story observed sh (claiming code) got sent
        → Told (claimed (claim code sh.store) sh)
    claimed-Told code (g, e) = split (claim code sh.store) refl
      where
        split : (r : Option Session × SessionStore) → claim code sh.store ≡ r → Told (claimed r sh)
        split (none, store) h = rw (append-nil sent) e
        split (some x, store) h =
            let (at, rest) = claim_sound code sh.store store x h in
            rw (append-nil sent, append-nil got)
              (
                g
                    ∙ ap (λ c. receiver_hello_env (record { code = c }) ∷ [])
                        (sym (
                          ap (λ (y : Session). y.code) (sound.own code x at)
                          ∙ sound.valid.own_code code x at)),
                e,
              )

    wake_receiver-Told :
        (id : ℕ) (w : Wake) (ready : Bool)
        → (sh.heap id).sender_ready ≡ ready
        → Story observed sh (waiting id) got sent
        → Told (wake_receiver id w ready sh)
    wake_receiver-Told id channel true h (g, e) = rw (append-nil sent, append-nil got) (g, e, h)
    wake_receiver-Told id channel false h (g, e) = rw (append-nil sent, append-nil got) (g, e)
    wake_receiver-Told id done ready h (g, e) = rw (append-nil sent) e

    address-Told :
        (id : ℕ) (r : Result Envelope)
        → May (addressing id) sh
        → Story observed sh (addressing id) got sent
        → Told (
            heard r
              (address observed id (read_expected r) sh).0
              (address observed id (read_expected r) sh).1)
    address-Told id r may (g, e) = elim (read_expected_cases r) [
      | inl (p, at) ↦
          rw (at, may.unready id refl, append-nil sent, (==_iff id id).1 refl)
            (
              record {
                addrs = p;
                got_both =
                    rw ((==_iff id id).1 refl)
                      (ap (λ (l : List Envelope). l ++ peer_addrs_env p ∷ []) g);
                ready = rw ((==_iff id id).1 refl) refl;
                observes = rw ((==_iff id id).1 refl) refl;
              },
              e,
            )
      | inr (x, no_addrs) ↦ rw no_addrs (heard_left r _)
    ]

    ask-Told :
        (id : ℕ) (r : Result Envelope)
        → Story observed sh (asking id) got sent
        → Told (heard r (ask observed id (read_expected r)) sh)
    ask-Told id r (g, e, ready) = elim (read_expected_cases r) [
      | inl (p, at) ↦
          rw (at, append-nil sent)
            (record {
              addrs = p;
              got_both = ap (λ (l : List Envelope). l ++ peer_addrs_env p ∷ []) g;
              told = e;
              ready = ready;
              observes = refl;
            })
      | inr (x, no_addrs) ↦ rw no_addrs (heard_left r sh)
    ]

    take_joined-Told :
        (id : ℕ) (o : Option PeerAddrs)
        → May (parked id) sh
        → Story observed sh (parked id) got sent
        → Fine (parked id) sh (take_joined id o sh).pc (take_joined id o sh).shared
        → Told (take_joined id o sh)
    take_joined-Told id none may (g, e) f = rw (append-nil sent, append-nil got) (g, e)
    take_joined-Told id (some p) may s f =
        rw (append-nil sent, append-nil got)
          (Story-grow (parked id) (forwarding id p) sh (take_joined id (some p) sh).shared f
            observed got sent (parked id) may s)

    pub act-Told :
        (pc : Pc) (a : Answer pc)
        → May pc sh
        → Story observed sh pc got sent
        → Told (act quote observed pc a sh)
    unfolding act
    act-Told fresh r may s = serve-Told sh r s
    act-Told (coding hello zero) d may (g, e) = rw (append-nil sent) e
    act-Told (coding hello (suc tries)) d may s = try (generate_code d.first d.second d.third)
      where
        try : (c : Result Text) → Told (try_code hello tries d.now c sh)
        try (ok code) = created-Told hello tries d.now code s
        try (err x) = rw (append-nil sent) s.1
    act-Told (announcing id) (ok v) may (g, e) = rw (append-nil got, e) (g, refl)
    act-Told (announcing id) (err v) may s = tt
    act-Told (addressing id) r may s = address-Told id r may s
    act-Told (parked id) done may s = tt
    act-Told (parked id) channel may s =
        take_joined-Told id (sh.heap id).receiver_joined may s
          (act-Fine quote observed sh sound (parked id) channel may)
    act-Told (forwarding id p) (ok v) may s = tt
    act-Told (forwarding id p) (err v) may s = tt
    act-Told (claiming code) v may s = claimed-Told code s
    act-Told (waiting id) w may s = wake_receiver-Told id w (sh.heap id).sender_ready refl s
    act-Told (finding id) (ok v) may (g, e, r) = rw (append-nil got, e) (g, refl, r)
    act-Told (finding id) (err v) may s = tt
    act-Told (asking id) r may s = ask-Told id r s
    act-Told (handing id p) v may s = tt
    act-Told (erring reason) (ok v) may s = tt
    act-Told (erring reason) (err v) may s = tt
    act-Told left a may s = absurd a
    act-Told panicked a may s = absurd a
