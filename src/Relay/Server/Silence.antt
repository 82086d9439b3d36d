-- ===== src/Relay/Server/Silence.antt =====
-- Which move of a handler tells of a receiver.
use mathlib.Core.Path.{subst}
use p2pft.Prelude.{
  ℕ, zero, suc, ◌≡◌, refl, ap, ◌⊎◌, inl, inr, Option, none, some, Bool, true, false, List, [], ◌∷◌,
  Text, arith,
}
use p2pft.Io.Result.{Result, ok, err}
use p2pft.Signaling.Messages.{PeerAddrs, Envelope, receiver_joined_env}
use p2pft.Signaling.Codes.{generate_code}
use p2pft.Relay.Session.{Session, SessionStore, create, claim}
use p2pft.Relay.Server.{
  Shared, Pc, fresh, coding, announcing, addressing, parked, forwarding, claiming, waiting, finding,
  asking, handing, erring, left, panicked, Wake, channel, done, Answer, Turn, heard, act,
  take_joined, created, try_code, claimed, wake_receiver, serve,
}
use p2pft.Relay.Server.Story.{Story}

-- The messages have one that tells of a receiver at the addresses `a`.
abbrev pub Tells : PeerAddrs → List Envelope → Type 0
Tells a [] = ⊥
Tells a (e ∷ es) = (e ≡ receiver_joined_env (record { peer = a })) ⊎ Tells a es

-- No handler that has not returned has told of a receiver.
pub Story-mute :
    (observed : Text) (sh : Shared) (pc : Pc) (got sent : List Envelope) (a : PeerAddrs)
    → Story observed sh pc got sent
    → Tells a sent
    → (pc ≡ left) ⊎ (pc ≡ panicked)
Story-mute o sh fresh got sent a (_, e) h = absurd (subst (Tells a) e h)
Story-mute o sh (coding x k) got sent a (_, e) h = absurd (subst (Tells a) e h)
Story-mute o sh (announcing id) got sent a (_, e) h = absurd (subst (Tells a) e h)
Story-mute o sh (addressing id) got sent a (_, e) h = absurd (ground (arith, subst (Tells a) e h))
Story-mute o sh (parked id) got sent a (_, e) h = absurd (ground (arith, subst (Tells a) e h))
Story-mute o sh (forwarding id x) got sent a (_, e) h = absurd (ground (arith, subst (Tells a) e h))
Story-mute o sh (claiming c) got sent a (_, e) h = absurd (subst (Tells a) e h)
Story-mute o sh (waiting id) got sent a (_, e) h = absurd (subst (Tells a) e h)
Story-mute o sh (finding id) got sent a (_, e, _) h = absurd (subst (Tells a) e h)
Story-mute o sh (asking id) got sent a (_, e, _) h = absurd (ground (arith, subst (Tells a) e h))
Story-mute o sh (handing id x) got sent a s h = absurd (ground (arith, subst (Tells a) s.told h))
Story-mute o sh (erring r) got sent a e h = absurd (subst (Tells a) e h)
Story-mute o sh left got sent a s h = inl refl
Story-mute o sh panicked got sent a s h = inr refl

-- The only message that tells of a receiver is the one that a forwarding handler sends.
abbrev pub Forwards : PeerAddrs → Pc → Turn → Type 0
Forwards a pc t =
    (id : ℕ) × (pc ≡ forwarding id a)
    × (t.got ≡ [])
    × (t.sent ≡ receiver_joined_env (record { peer = a }) ∷ [])

module _ (quote : Text → Text) (observed : Text) (sh : Shared) (a : PeerAddrs) where
  abbrev Mute : Turn → Type 0
  Mute t = Tells a t.sent → ⊥

  heard-Mute : (r : Result Envelope) (pc : Pc) (sh' : Shared) → Mute (heard r pc sh')
  heard-Mute (ok e) pc sh' h = h
  heard-Mute (err e) pc sh' h = h

  pub act-Forwards :
      (pc : Pc) (x : Answer pc)
      → Tells a (act quote observed pc x sh).sent
      → Forwards a pc (act quote observed pc x sh)
  unfolding act
  act-Forwards fresh r h = absurd (heard-Mute r (serve quote r) sh h)
  act-Forwards (coding hello zero) d h = absurd h
  act-Forwards (coding hello (suc k)) d h = absurd (try (generate_code d.first d.second d.third) h)
    where
      made : (r : Option Session × SessionStore) → Mute (created hello k r sh)
      made (some x, s) h = h
      made (none, s) h = h

      try : (c : Result Text) → Mute (try_code hello k d.now c sh)
      try (ok code) with_sent = made (create d.now code hello sh.store) with_sent
      try (err e) with_sent = with_sent
  act-Forwards (announcing id) (ok v) h = ground (arith, h)
  act-Forwards (announcing id) (err v) h = absurd h
  act-Forwards (addressing id) r h = absurd (heard-Mute r _ _ h)
  act-Forwards (parked id) done h = absurd h
  act-Forwards (parked id) channel h = absurd (woken (sh.heap id).receiver_joined h)
    where
      woken : (o : Option PeerAddrs) → Mute (take_joined id o sh)
      woken none h = h
      woken (some p) h = h
  act-Forwards (forwarding id p) (ok v) (inl e) =
      let same : p ≡ a = cc e in
      (
        id,
        ap (forwarding id) same,
        refl,
        ap (λ (q : PeerAddrs). receiver_joined_env (record { peer = q }) ∷ []) same,
      )
  act-Forwards (forwarding id p) (ok v) (inr h) = absurd h
  act-Forwards (forwarding id p) (err v) h = absurd h
  act-Forwards (claiming code) v h = absurd (claims (claim code sh.store) h)
    where
      claims : (r : Option Session × SessionStore) → Mute (claimed r sh)
      claims (none, s) h = h
      claims (some x, s) h = h
  act-Forwards (waiting id) w h = absurd (woken w (sh.heap id).sender_ready h)
    where
      woken : (w : Wake) (b : Bool) → Mute (wake_receiver id w b sh)
      woken channel true h = h
      woken channel false h = h
      woken done b h = h
  act-Forwards (finding id) (ok v) h = ground (arith, h)
  act-Forwards (finding id) (err v) h = absurd h
  act-Forwards (asking id) r h = absurd (heard-Mute r _ sh h)
  act-Forwards (handing id p) v h = absurd h
  act-Forwards (erring reason) (ok v) h = ground (arith, h)
  act-Forwards (erring reason) (err v) h = absurd h
  act-Forwards left x h = absurd x
  act-Forwards panicked x h = absurd x

-- A hand-off is the last move of a handler.
pub act-handing :
    (quote : Text → Text) (observed : Text) (sh : Shared) (id : ℕ) (a : PeerAddrs) (pc : Pc)
    (x : Answer pc)
    → pc ≡ handing id a
    → ((act quote observed pc x sh).pc ≡ left)
      × ((act quote observed pc x sh).got ≡ [])
      × ((act quote observed pc x sh).sent ≡ [])
unfolding act
act-handing q o sh id a (handing j p) x e = (refl, refl, refl)
act-handing q o sh id a fresh x e = cc e
act-handing q o sh id a (coding h k) x e = cc e
act-handing q o sh id a (announcing j) x e = cc e
act-handing q o sh id a (addressing j) x e = cc e
act-handing q o sh id a (parked j) x e = cc e
act-handing q o sh id a (forwarding j p) x e = cc e
act-handing q o sh id a (claiming c) x e = cc e
act-handing q o sh id a (waiting j) x e = cc e
act-handing q o sh id a (finding j) x e = cc e
act-handing q o sh id a (asking j) x e = cc e
act-handing q o sh id a (erring r) x e = cc e
act-handing q o sh id a left x e = cc e
act-handing q o sh id a panicked x e = cc e
