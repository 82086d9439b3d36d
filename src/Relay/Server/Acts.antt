-- ===== src/Relay/Server/Acts.antt =====
-- Every move of a handler is a fine one.
use p2pft.Prelude.{
  ℕ, zero, suc, ◌<◌, ◌≡◌, refl, sym, ap, ◌∙◌, inl, inr, Option, none, some, Bool, true, false, Text,
  arith, Option-cases,
}
use p2pft.Io.Result.{Result, ok, err}
use p2pft.Signaling.Messages.{
  Envelope, SenderHello, PeerAddrs, sender_hello, receiver_hello, peer_addrs, session_created,
  session_found, receiver_joined, session_error, unknown, sender_hello_env, receiver_hello_env,
  peer_addrs_env, session_created_env, session_found_env, receiver_joined_env, session_error_env,
  malformed,
}
use p2pft.Signaling.Codes.{generate_code}
use p2pft.Relay.Session.{Session, SessionStore, create, claim}
use p2pft.Relay.Session.Once.{IsGone, create-IsValid, create-IsGone, claimed-IsGone, claim_sound}
use p2pft.Relay.Server.{
  Shared, Pc, fresh, coding, announcing, addressing, parked, forwarding, claiming, waiting, finding,
  asking, handing, erring, left, panicked, Wake, channel, done, Answer, Turn, heard, send, act,
  serve, retry, created, try_code, address, take_joined, wake_sender, claimed, wake_receiver, ask,
  offer, read_expected,
}
use p2pft.Relay.Server.Moves.{
  IsPlain, owns, opening, takes, Sound, May, Fine, Fine-still, Fine-drop, Fine-claim, Fine-place,
}

abbrev FineTurn : Pc → Shared → Turn → Type 0
FineTurn pc sh t = Fine pc sh t.pc t.shared

module _ (sh : Shared) (sound : Sound sh) where
  module _ (hello : SenderHello) (tries : ℕ) (may : May (coding hello (suc tries)) sh) where
    Fine-retry : (k : ℕ) → Fine (coding hello (suc tries)) sh (retry hello k) sh
    Fine-retry zero = Fine-still _ sh sound may _ (λ id e. cc e) (λ id e. cc e) (λ id e. cc e) tt
    Fine-retry (suc k) = Fine-still _ sh sound may _ (λ id e. cc e) (λ id e. cc e) (λ id e. cc e) tt

    Sound-create :
        (now : ℕ) (code : Text)
        → sh.store.sessions code ≡ none
        → Sound (created hello tries (create now code hello sh.store) sh).shared
    unfolding create
    Sound-create now code free =
        let v = create-IsValid now code hello sh.store sound.valid in
        rw free (record {
          valid = rw free at v;
          own = λ c x e. ground (arith, sound.own c x, sound.valid.given_out c x);
          empty = λ c x e. ground (arith, sound.empty c x, sound.valid.given_out c x);
        })

    Fine-created :
        (now : ℕ) (code : Text)
        → FineTurn
            (coding hello (suc tries))
            sh
            (created hello tries (create now code hello sh.store) sh)
    unfolding create
    Fine-created now code = elim (Option-cases (sh.store.sessions code)) [
      | inl free ↦
          let v = Sound-create now code free in
          let g = λ (id : ℕ). create-IsGone id now code hello sh.store in
          rw free (record {
            sound = rw free at v;
            grows = omega arith;
            gone = λ id h. rw free at (g id h);
            owner = λ id e. inr (ground arith, ground arith);
            opener = λ id e. ground arith;
            ready = λ id l e. ground arith;
            taker = λ id e. cc e;
            joined = λ id l e. ground arith;
            same = λ id l. ground arith;
            settled = λ id l e. (ground arith, ground arith);
            calm = λ e. cc e;
            filled = λ id a l e. ground (arith, e);
            forwards = λ id a e. cc e;
          })
      | inr (x, old) ↦ rw old (Fine-retry tries)
    ]

    Fine-try :
        (now : ℕ) (r : Result Text)
        → FineTurn (coding hello (suc tries)) sh (try_code hello tries now r sh)
    Fine-try now (ok code) = Fine-created now code
    Fine-try now (err e) =
        Fine-still _ sh sound may _ (λ id e. cc e) (λ id e. cc e) (λ id e. cc e) tt

  Fine-claimed :
      (code : Text)
      → May (claiming code) sh
      → FineTurn (claiming code) sh (claimed (claim code sh.store) sh)
  Fine-claimed code may = split (claim code sh.store) refl
    where
      taken :
          (x : Session) (store : SessionStore)
          → claim code sh.store ≡ (some x, store)
          → (id : ℕ) → takes (waiting x.id) ≡ some id
          → (c : Text) × (y : Session) × (sh.store.sessions c ≡ some y)
            × (y.id ≡ id)
            × IsGone id (claim code sh.store).1
      taken x store e id h =
          let g = claimed-IsGone code sh.store store x sound.valid e in
          let k : x.id ≡ id = cc h in
          (code, x, (claim_sound code sh.store store x e).0, k, rw (e, ← k) g)

      split :
          (r : Option Session × SessionStore)
          → claim code sh.store ≡ r
          → FineTurn (claiming code) sh (claimed r sh)
      split (none, store) e = rw (ap (λ (r : Option Session × SessionStore). r.1) (sym e)) (
          Fine-claim _ sh sound may code (erring _) (λ id h. cc h) (λ id h. cc h) (λ id h. cc h) tt)
      split (some x, store) e = rw (ap (λ (r : Option Session × SessionStore). r.1) (sym e)) (
          Fine-claim _ sh sound may code (waiting x.id) (λ id h. cc h) (λ id h. cc h)
            (taken x store e) tt)

  Fine-address :
      (observed : Text) (id : ℕ) (r : Result PeerAddrs)
      → May (addressing id) sh
      → Fine (addressing id) sh (address observed id r sh).0 (address observed id r sh).1
  Fine-address observed id (ok p) may = rw (may.unready id refl) (
      Fine-place _ sh sound may id
        (record (sh.heap id) { sender_addrs = record p { public = observed }; sender_ready = true })
        refl (parked id) (inl (λ e. e)) (λ j e. e) (λ j e. cc e) (λ j e. cc e) (λ e. inr refl)
        (λ e. cc (e, may.unready id refl)) (λ e. inl e) (λ e. cc e) (λ a e. inl e) (λ j a e. cc e))
  Fine-address observed id (err e) may = Fine-drop _ sh sound may _

  Fine-wake_sender :
      (id : ℕ) (w : Wake) → May (parked id) sh → FineTurn (parked id) sh (wake_sender id w sh)
  Fine-wake_sender id done may = Fine-drop _ sh sound may _
  Fine-wake_sender id channel may = split (sh.heap id).receiver_joined refl
    where
      fw :
          (p : PeerAddrs)
          → (sh.heap id).receiver_joined ≡ some p
          → (j : ℕ) (a : PeerAddrs) → forwarding id p ≡ forwarding j a
          → (j < sh.store.next_id) × ((sh.heap j).receiver_joined ≡ some a)
      fw p h j a e =
          let same : id ≡ j = cc e in
          let got : p ≡ a = cc e in rw (← same) (may.owned id refl, h ∙ ap some got)

      split :
          (o : Option PeerAddrs)
          → (sh.heap id).receiver_joined ≡ o
          → FineTurn (parked id) sh (take_joined id o sh)
      split none h = Fine-still _ sh sound may _ (λ j e. e) (λ j e. cc e) (λ j e. cc e) tt
      split (some p) h =
          Fine-place _ sh sound may id (record (sh.heap id) { receiver_joined = none }) refl
            (forwarding id p) (inl (λ e. refl)) (λ j e. e) (λ j e. cc e) (λ j e. cc e) (λ e. inl e)
            (λ e. (e, refl)) (λ e. inl refl) (λ e. cc e) (λ a e. cc e) (λ j a e. fw p h j a e)

  Fine-wake_receiver :
      (id : ℕ) (w : Wake) (ready : Bool)
      → May (waiting id) sh
      → FineTurn (waiting id) sh (wake_receiver id w ready sh)
  Fine-wake_receiver id channel true may =
      Fine-still _ sh sound may _ (λ j e. cc e) (λ j e. cc e) (λ j e. e) tt
  Fine-wake_receiver id channel false may =
      Fine-still _ sh sound may _ (λ j e. cc e) (λ j e. cc e) (λ j e. e) tt
  Fine-wake_receiver id done ready may =
      Fine-still _ sh sound may _ (λ j e. cc e) (λ j e. cc e) (λ j e. cc e) tt

  Fine-ask :
      (observed : Text) (id : ℕ) (r : Result PeerAddrs)
      → May (asking id) sh
      → Fine (asking id) sh (ask observed id r) sh
  Fine-ask observed id (ok p) may =
      Fine-still _ sh sound may _ (λ j e. cc e) (λ j e. cc e) (λ j e. e) tt
  Fine-ask observed id (err e) may =
      Fine-still _ sh sound may _ (λ j e. cc e) (λ j e. cc e) (λ j e. cc e) tt

  Fine-offer :
      (id : ℕ) (p : PeerAddrs) (o : Option PeerAddrs)
      → May (handing id p) sh
      → Fine (handing id p) sh left (offer id p o sh)
  Fine-offer id p none may =
      Fine-place _ sh sound may id (record (sh.heap id) { receiver_joined = some p }) refl left
        (inr (may.taken id refl)) (λ j e. cc e) (λ j e. cc e) (λ j e. cc e) (λ e. inl e)
        (λ e. (e, refl)) (λ e. inr (refl, refl)) (λ e. cc e) (λ a e. inr (cc e)) (λ j a e. cc e)
  Fine-offer id p (some q) may =
      Fine-still _ sh sound may _ (λ j e. cc e) (λ j e. cc e) (λ j e. cc e) tt

  Fine-heard :
      (pc pc' : Pc) (r : Result Envelope) (sh' : Shared)
      → Fine pc sh pc' sh'
      → FineTurn pc sh (heard r pc' sh')
  Fine-heard pc pc' (ok e) sh' f = f
  Fine-heard pc pc' (err e) sh' f = f

  Fine-send :
      (pc pc' pc'' : Pc) (r : Result (Unit {0})) (e : Envelope) (sh' : Shared)
      → Fine pc sh pc' sh
      → Fine pc sh pc'' sh'
      → FineTurn pc sh (send r e pc' pc'' sh sh')
  Fine-send pc pc' pc'' (ok u) e sh' f g = f
  Fine-send pc pc' pc'' (err x) e sh' f g = g

-- A handler that neither is a sender's nor has claimed a session.
abbrev IsIdle : Pc → Type 0
IsIdle pc = (owns pc ≡ none) × (opening pc ≡ none) × (takes pc ≡ none) × IsPlain pc

serve-IsIdle : (quote : Text → Text) (r : Result Envelope) → IsIdle (serve quote r)
serve-IsIdle quote (err e) = (refl, refl, refl, tt)
serve-IsIdle quote (ok (sender_hello_env h)) = (refl, refl, refl, tt)
serve-IsIdle quote (ok (receiver_hello_env h)) = (refl, refl, refl, tt)
serve-IsIdle quote (ok (peer_addrs_env h)) = (refl, refl, refl, tt)
serve-IsIdle quote (ok (session_created_env h)) = (refl, refl, refl, tt)
serve-IsIdle quote (ok (session_found_env h)) = (refl, refl, refl, tt)
serve-IsIdle quote (ok (receiver_joined_env h)) = (refl, refl, refl, tt)
serve-IsIdle quote (ok (session_error_env h)) = (refl, refl, refl, tt)
serve-IsIdle quote (ok (malformed sender_hello)) = (refl, refl, refl, tt)
serve-IsIdle quote (ok (malformed receiver_hello)) = (refl, refl, refl, tt)
serve-IsIdle quote (ok (malformed peer_addrs)) = (refl, refl, refl, tt)
serve-IsIdle quote (ok (malformed session_created)) = (refl, refl, refl, tt)
serve-IsIdle quote (ok (malformed session_found)) = (refl, refl, refl, tt)
serve-IsIdle quote (ok (malformed receiver_joined)) = (refl, refl, refl, tt)
serve-IsIdle quote (ok (malformed session_error)) = (refl, refl, refl, tt)
serve-IsIdle quote (ok (malformed (unknown t))) = (refl, refl, refl, tt)

module _ (quote : Text → Text) (observed : Text) (sh : Shared) (sound : Sound sh) where
  Fine-left : (pc : Pc) → May pc sh → Fine pc sh left sh
  Fine-left pc may = Fine-still _ sh sound may _ (λ j e. cc e) (λ j e. cc e) (λ j e. cc e) tt

  -- Every move of a handler.
  pub act-Fine : (pc : Pc) (a : Answer pc) → May pc sh → FineTurn pc sh (act quote observed pc a sh)
  unfolding act
  act-Fine fresh r may =
      let (o, p, t, c) = serve-IsIdle quote r in
      Fine-heard sh sound _ _ r sh
        (Fine-still _ sh sound may _ (λ j e. cc (e, o)) (λ j e. cc (e, p)) (λ j e. cc (e, t)) c)
  act-Fine (coding hello zero) d may =
      Fine-still _ sh sound may _ (λ j e. cc e) (λ j e. cc e) (λ j e. cc e) tt
  act-Fine (coding hello (suc tries)) d may =
      Fine-try sh sound hello tries may d.now (generate_code d.first d.second d.third)
  act-Fine (announcing id) r may =
      Fine-send sh sound _ _ _ r _ _
        (Fine-still _ sh sound may (addressing id) (λ j e. e) (λ j e. e) (λ j e. cc e) tt)
        (Fine-drop _ sh sound may _)
  act-Fine (addressing id) r may =
      Fine-heard sh sound _ _ r _ (Fine-address sh sound observed id (read_expected r) may)
  act-Fine (parked id) w may = Fine-wake_sender sh sound id w may
  act-Fine (forwarding id p) r may =
      Fine-send sh sound _ _ _ r _ _ (Fine-left _ may) (Fine-left _ may)
  act-Fine (claiming code) u may = Fine-claimed sh sound code may
  act-Fine (waiting id) w may = Fine-wake_receiver sh sound id w (sh.heap id).sender_ready may
  act-Fine (finding id) r may =
      Fine-send sh sound _ _ _ r _ _
        (Fine-still _ sh sound may (asking id) (λ j e. cc e) (λ j e. cc e) (λ j e. e) tt)
        (Fine-left _ may)
  act-Fine (asking id) r may =
      Fine-heard sh sound _ _ r sh (Fine-ask sh sound observed id (read_expected r) may)
  act-Fine (handing id p) u may = Fine-offer sh sound id p (sh.heap id).receiver_joined may
  act-Fine (erring reason) r may =
      Fine-send sh sound _ _ _ r _ _ (Fine-left _ may) (Fine-left _ may)
  act-Fine left a may = absurd a
  act-Fine panicked a may = absurd a
