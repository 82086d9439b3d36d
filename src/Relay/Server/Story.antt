-- ===== src/Relay/Server/Story.antt =====
-- What a connection has said and been told by the time its handler stands somewhere.
use p2pft.Prelude.{ℕ, ◌<◌, ◌≡◌, refl, ap, ◌∙◌, true, List, [], ◌∷◌, Text}
use p2pft.Signaling.Messages.{
  PeerAddrs, Envelope, sender_hello_env, receiver_hello_env, peer_addrs_env,
}
use p2pft.Relay.Session.{Session}
use p2pft.Relay.Server.{
  Shared, Pc, fresh, coding, announcing, addressing, parked, forwarding, claiming, waiting, finding,
  asking, handing, erring, left, panicked, code_of, created_env, found_env,
}
use p2pft.Relay.Server.Moves.{May, Fine}

-- The sender has named its file.
abbrev pub Introduced : Shared → ℕ → List Envelope → Type 0
Introduced sh id got = got ≡ sender_hello_env (sh.heap id).session.sender_hello ∷ []

-- The sender has given its addresses, and the session has them with the address at which the relay
-- sees the sender.
pub record Addressed (observed : Text) (sh : Shared) (id : ℕ) (got : List Envelope) : Type 0 where
  pub addrs : PeerAddrs
  pub got_both :
      got ≡ sender_hello_env (sh.heap id).session.sender_hello ∷ peer_addrs_env addrs ∷ []
  pub ready : (sh.heap id).sender_ready ≡ true
  pub observes : (sh.heap id).sender_addrs ≡ record addrs { public = observed }

abbrev pub named : Shared → ℕ → Envelope
named sh id = receiver_hello_env (record { code = code_of sh id })

-- The receiver has named the session's code, got its file and sender, and given its addresses.
pub record Given (observed : Text) (sh : Shared) (id : ℕ) (a : PeerAddrs) (got sent : List Envelope)
    : Type 0 where
  pub addrs : PeerAddrs
  pub got_both : got ≡ named sh id ∷ peer_addrs_env addrs ∷ []
  pub told : sent ≡ found_env (sh.heap id) ∷ []
  pub ready : (sh.heap id).sender_ready ≡ true
  pub observes : a ≡ record addrs { public = observed }

abbrev pub Story : Text → Shared → Pc → List Envelope → List Envelope → Type 0
Story observed sh fresh got sent = (got ≡ []) × (sent ≡ [])
Story observed sh (coding hello k) got sent = (got ≡ sender_hello_env hello ∷ []) × (sent ≡ [])
Story observed sh (announcing id) got sent = Introduced sh id got × (sent ≡ [])
Story observed sh (addressing id) got sent =
    Introduced sh id got × (sent ≡ created_env (sh.heap id) ∷ [])
Story observed sh (parked id) got sent =
    Addressed observed sh id got × (sent ≡ created_env (sh.heap id) ∷ [])
Story observed sh (forwarding id a) got sent =
    Addressed observed sh id got × (sent ≡ created_env (sh.heap id) ∷ [])
Story observed sh (claiming code) got sent =
    (got ≡ receiver_hello_env (record { code = code }) ∷ []) × (sent ≡ [])
Story observed sh (waiting id) got sent = (got ≡ named sh id ∷ []) × (sent ≡ [])
Story observed sh (finding id) got sent =
    (got ≡ named sh id ∷ []) × (sent ≡ []) × ((sh.heap id).sender_ready ≡ true)
Story observed sh (asking id) got sent =
    (got ≡ named sh id ∷ [])
    × (sent ≡ found_env (sh.heap id) ∷ [])
    × ((sh.heap id).sender_ready ≡ true)
Story observed sh (handing id a) got sent = Given observed sh id a got sent
Story observed sh (erring reason) got sent = sent ≡ []
Story observed sh left got sent = Unit
Story observed sh panicked got sent = Unit

module _ (pc pc' : Pc) (sh sh' : Shared) (f : Fine pc sh pc' sh') (observed : Text) (id : ℕ)
    (old : id < sh.store.next_id) where
  pub created_same : created_env (sh'.heap id) ≡ created_env (sh.heap id)
  created_same = rw (f.same id old) refl

  pub named_same : named sh' id ≡ named sh id
  named_same = ap (λ (x : Session). receiver_hello_env (record { code = x.code })) (f.same id old)

  pub found_same :
      (sh.heap id).sender_ready ≡ true → found_env (sh'.heap id) ≡ found_env (sh.heap id)
  found_same r = rw (f.same id old, (f.settled id old r).1) refl

  pub Addressed-grow :
      (got : List Envelope) → Addressed observed sh id got → Addressed observed sh' id got
  Addressed-grow got a = record {
    addrs = a.addrs;
    got_both = rw (f.same id old) a.got_both;
    ready = (f.settled id old a.ready).0;
    observes = (f.settled id old a.ready).1 ∙ a.observes;
  }

  pub Given-grow :
      (p : PeerAddrs) (got sent : List Envelope)
      → Given observed sh id p got sent
      → Given observed sh' id p got sent
  Given-grow p got sent g = record {
    addrs = g.addrs;
    got_both = rw named_same g.got_both;
    told = rw (found_same g.ready) g.told;
    ready = (f.settled id old g.ready).0;
    observes = g.observes;
  }

module _ (pc pc' : Pc) (sh sh' : Shared) (f : Fine pc sh pc' sh') (observed : Text)
    (got sent : List Envelope) where
  -- The moves of the handlers leave a story true.
  pub Story-grow :
      (q : Pc) → May q sh → Story observed sh q got sent → Story observed sh' q got sent
  Story-grow fresh m s = s
  Story-grow (coding hello k) m s = s
  Story-grow (announcing id) m (g, e) = (rw (f.same id (m.owned id refl)) g, e)
  Story-grow (addressing id) m (g, e) = (
    rw (f.same id (m.owned id refl)) g,
    rw (created_same pc pc' sh sh' f observed id (m.owned id refl)) e,
  )
  Story-grow (parked id) m (g, e) = (
    Addressed-grow pc pc' sh sh' f observed id (m.owned id refl) got g,
    rw (created_same pc pc' sh sh' f observed id (m.owned id refl)) e,
  )
  Story-grow (forwarding id a) m (g, e) = (
    Addressed-grow pc pc' sh sh' f observed id (m.owned id refl) got g,
    rw (created_same pc pc' sh sh' f observed id (m.owned id refl)) e,
  )
  Story-grow (claiming code) m s = s
  Story-grow (waiting id) m (g, e) =
      (rw (named_same pc pc' sh sh' f observed id (m.taken id refl).past) g, e)
  Story-grow (finding id) m (g, e, r) = (
    rw (named_same pc pc' sh sh' f observed id (m.taken id refl).past) g,
    e,
    (f.settled id (m.taken id refl).past r).0,
  )
  Story-grow (asking id) m (g, e, r) = (
    rw (named_same pc pc' sh sh' f observed id (m.taken id refl).past) g,
    rw (found_same pc pc' sh sh' f observed id (m.taken id refl).past r) e,
    (f.settled id (m.taken id refl).past r).0,
  )
  Story-grow (handing id a) m s =
      Given-grow pc pc' sh sh' f observed id (m.taken id refl).past a got sent s
  Story-grow (erring reason) m s = s
  Story-grow left m s = s
  Story-grow panicked m s = s
