-- ===== src/Relay/Server/Moves.antt =====
-- What one move of a handler does to the sessions.
use mathlib.Core.Path.{subst}
use p2pft.Prelude.{
  ℕ, ◌≤◌, ◌<◌, ◌≡◌, ◌≢◌, refl, ap, ◌⊎◌, inl, inr, Option, none, some, true, false, ◌==◌, ==_iff,
  Text, arith, Bool-cases,
}
use p2pft.Signaling.Messages.{PeerAddrs}
use p2pft.Relay.Session.{Session, SessionStore, claim}
use p2pft.Relay.Session.Once.{IsValid, IsGone, claim-IsValid, claim-IsGone}
use p2pft.Relay.Server.{
  Object, Shared, Pc, announcing, addressing, parked, forwarding, waiting, finding, asking, handing,
  left, panicked, place,
}

-- The session of which a handler is the sender's.
abbrev pub owns : Pc → Option ℕ
owns (announcing id) = some id
owns (addressing id) = some id
owns (parked id) = some id
owns (forwarding id p) = some id
owns _ = none

-- The same, as long as the sender has not given its addresses.
abbrev pub opening : Pc → Option ℕ
opening (announcing id) = some id
opening (addressing id) = some id
opening _ = none

-- The session that the handler of a receiver has claimed.
abbrev pub takes : Pc → Option ℕ
takes (waiting id) = some id
takes (finding id) = some id
takes (asking id) = some id
takes (handing id p) = some id
takes _ = none

-- Each session of the store is the one of its object, and no receiver has joined it.
pub record Sound (sh : Shared) : Type 0 where
  pub valid : IsValid sh.store
  pub own :
      (code : Text) (x : Session) → sh.store.sessions code ≡ some x → (sh.heap x.id).session ≡ x
  pub empty :
      (code : Text) (x : Session)
      → sh.store.sessions code ≡ some x
      → (sh.heap x.id).receiver_joined ≡ none

-- Neither a handler that has taken the receiver's addresses nor one that has panicked.
abbrev pub IsPlain : Pc → Type 0
IsPlain (forwarding id p) = ⊥
IsPlain panicked = ⊥
IsPlain _ = Unit

-- What a handler may rely on where it stands.
pub record May (pc : Pc) (sh : Shared) : Type 0 where
  pub owned : (id : ℕ) → owns pc ≡ some id → id < sh.store.next_id
  pub unready : (id : ℕ) → opening pc ≡ some id → (sh.heap id).sender_ready ≡ false
  pub taken : (id : ℕ) → takes pc ≡ some id → IsGone id sh.store
  pub quiet : (id : ℕ) → takes pc ≡ some id → (sh.heap id).receiver_joined ≡ none

-- What a move from `pc` and `sh` to `pc'` and `sh'` has done to the sessions.
pub record Fine (pc : Pc) (sh : Shared) (pc' : Pc) (sh' : Shared) : Type 0 where
  pub sound : Sound sh'
  pub grows : sh.store.next_id ≤ sh'.store.next_id
  pub gone : (id : ℕ) → IsGone id sh.store → IsGone id sh'.store
  pub owner :
      (id : ℕ)
      → owns pc' ≡ some id
      → (owns pc ≡ some id) ⊎ ((sh.store.next_id ≤ id) × (id < sh'.store.next_id))
  pub opener : (id : ℕ) → opening pc' ≡ some id → (sh'.heap id).sender_ready ≡ false
  pub ready :
      (id : ℕ)
      → id < sh.store.next_id
      → (sh.heap id).sender_ready ≡ false
      → ((sh'.heap id).sender_ready ≡ false) ⊎ (opening pc ≡ some id)
  pub taker :
      (id : ℕ)
      → takes pc' ≡ some id
      → (takes pc ≡ some id)
        ⊎ ((code : Text) × (x : Session) × (sh.store.sessions code ≡ some x)
            × (x.id ≡ id)
            × IsGone id sh'.store)
  pub joined :
      (id : ℕ)
      → id < sh.store.next_id
      → (sh.heap id).receiver_joined ≡ none
      → ((sh'.heap id).receiver_joined ≡ none) ⊎ ((takes pc ≡ some id) × (takes pc' ≡ none))
  pub same : (id : ℕ) → id < sh.store.next_id → (sh'.heap id).session ≡ (sh.heap id).session
  pub settled :
      (id : ℕ)
      → id < sh.store.next_id
      → (sh.heap id).sender_ready ≡ true
      → ((sh'.heap id).sender_ready ≡ true)
        × ((sh'.heap id).sender_addrs ≡ (sh.heap id).sender_addrs)
  pub calm : pc' ≢ panicked
  -- Only a hand-off fills the channel of a session, and only a parked sender empties it.
  pub filled :
      (id : ℕ) (a : PeerAddrs)
      → id < sh'.store.next_id
      → (sh'.heap id).receiver_joined ≡ some a
      → ((id < sh.store.next_id) × ((sh.heap id).receiver_joined ≡ some a)) ⊎ (pc ≡ handing id a)
  pub forwards :
      (id : ℕ) (a : PeerAddrs)
      → pc' ≡ forwarding id a
      → (id < sh.store.next_id) × ((sh.heap id).receiver_joined ≡ some a)

pub claim_kept :
    (code : Text) (s : SessionStore) (c : Text) (x : Session)
    → (claim code s).1.sessions c ≡ some x
    → s.sessions c ≡ some x
unfolding claim
claim_kept code s c x h = ground arith

pub claim_next : (code : Text) (s : SessionStore) → (claim code s).1.next_id ≡ s.next_id
unfolding claim
claim_next code s = ground arith

pub Sound-claim :
    (code : Text) (sh : Shared) → Sound sh → Sound (record sh { store = (claim code sh.store).1 })
Sound-claim code sh v = record {
  valid = claim-IsValid code sh.store v.valid;
  own = λ c x e. v.own c x (claim_kept code sh.store c x e);
  empty = λ c x e. v.empty c x (claim_kept code sh.store c x e);
}

module _ (pc : Pc) (sh : Shared) (sound : Sound sh) (may : May pc sh) where
  -- The handler goes on and touches no session.
  pub Fine-still :
      (pc' : Pc)
      → ((id : ℕ) → owns pc' ≡ some id → owns pc ≡ some id)
      → ((id : ℕ) → opening pc' ≡ some id → opening pc ≡ some id)
      → ((id : ℕ) → takes pc' ≡ some id → takes pc ≡ some id)
      → IsPlain pc'
      → Fine pc sh pc' sh
  Fine-still pc' o p t c = record {
    sound = sound;
    grows = omega arith;
    gone = λ id g. g;
    owner = λ id e. inl (o id e);
    opener = λ id e. may.unready id (p id e);
    ready = λ id l e. inl e;
    taker = λ id e. inl (t id e);
    joined = λ id l e. inl e;
    same = λ id l. refl;
    settled = λ id l e. (e, refl);
    calm = λ e. subst IsPlain e c;
    filled = λ id a l e. inl (l, e);
    forwards = λ id a e. absurd (subst IsPlain e c);
  }

  -- The handler claims a code.
  pub Fine-claim :
      (code : Text) (pc' : Pc)
      → ((id : ℕ) → owns pc' ≢ some id)
      → ((id : ℕ) → opening pc' ≢ some id)
      → ((id : ℕ)
          → takes pc' ≡ some id
          → (c : Text) × (x : Session) × (sh.store.sessions c ≡ some x)
            × (x.id ≡ id)
            × IsGone id (claim code sh.store).1)
      → IsPlain pc'
      → Fine pc sh pc' (record sh { store = (claim code sh.store).1 })
  Fine-claim code pc' ow op tk c = record {
    sound = Sound-claim code sh sound;
    grows = omega (arith, claim_next code sh.store);
    gone = λ id g. claim-IsGone id code sh.store g;
    owner = λ id e. absurd (ow id e);
    opener = λ id e. absurd (op id e);
    ready = λ id l e. inl e;
    taker = λ id e. inr (tk id e);
    joined = λ id l e. inl e;
    same = λ id l. refl;
    settled = λ id l e. (e, refl);
    calm = λ e. subst IsPlain e c;
    filled = λ id a l e. inl (omega (arith, claim_next code sh.store, l), e);
    forwards = λ id a e. absurd (subst IsPlain e c);
  }

  -- The handler returns with a claim of the code of a session.
  pub Fine-drop : (code : Text) → Fine pc sh left (record sh { store = (claim code sh.store).1 })
  Fine-drop code = Fine-claim code left (λ id e. cc e) (λ id e. cc e) (λ id e. cc e) tt

  -- The object of session `k`, which is not new, gets a new state with the same fixed fields.
  module _ (k : ℕ) (o : Object) (same_session : o.session ≡ (sh.heap k).session) where
    abbrev pub stored : Shared
    stored = record sh { heap = place sh.heap k o }

    Sound-place :
        ((sh.heap k).receiver_joined ≡ none → o.receiver_joined ≡ none) ⊎ IsGone k sh.store
        → Sound stored
    Sound-place h = record {
      valid = sound.valid;
      own = λ c x e.
          ground
            (arith, sound.own c x e, ap (λ (n : ℕ). (sh.heap n).session) ((==_iff k x.id).0 _));
      empty = λ c x e. elim h [
        | inl kept ↦ elim (Bool-cases (k == x.id)) [
          | inl at ↦ let eq = (==_iff k x.id).0 at in rw at (kept (rw eq (sound.empty c x e)))
          | inr off ↦ rw off (sound.empty c x e)
        ]
        | inr g ↦ ground (arith, sound.empty c x e, g.absent c x e)
      ];
    }

    filled_at :
        (id : ℕ) (a : PeerAddrs)
        → k ≡ id
        → id < sh.store.next_id
        → ((sh.heap k).receiver_joined ≡ some a) ⊎ (pc ≡ handing k a)
        → ((id < sh.store.next_id) × ((sh.heap id).receiver_joined ≡ some a)) ⊎ (pc ≡ handing id a)
    filled_at id a eq l (inl e) = inl (l, rw eq at e)
    filled_at id a eq l (inr e) = inr (rw eq at e)

    pub Fine-place :
        (pc' : Pc)
        → ((sh.heap k).receiver_joined ≡ none → o.receiver_joined ≡ none) ⊎ IsGone k sh.store
        → ((id : ℕ) → owns pc' ≡ some id → owns pc ≡ some id)
        → ((id : ℕ) → opening pc' ≢ some id)
        → ((id : ℕ) → takes pc' ≡ some id → takes pc ≡ some id)
        → ((sh.heap k).sender_ready ≡ false → (o.sender_ready ≡ false) ⊎ (opening pc ≡ some k))
        → ((sh.heap k).sender_ready ≡ true
            → (o.sender_ready ≡ true) × (o.sender_addrs ≡ (sh.heap k).sender_addrs))
        → ((sh.heap k).receiver_joined ≡ none
            → (o.receiver_joined ≡ none) ⊎ ((takes pc ≡ some k) × (takes pc' ≡ none)))
        → pc' ≢ panicked
        → ((a : PeerAddrs)
            → o.receiver_joined ≡ some a
            → ((sh.heap k).receiver_joined ≡ some a) ⊎ (pc ≡ handing k a))
        → ((id : ℕ) (a : PeerAddrs)
            → pc' ≡ forwarding id a
            → (id < sh.store.next_id) × ((sh.heap id).receiver_joined ≡ some a))
        → Fine pc sh pc' stored
    Fine-place pc' h ow op tk rd st jn c fl fw = record {
      sound = Sound-place h;
      grows = omega arith;
      gone = λ id g. g;
      owner = λ id e. inl (ow id e);
      opener = λ id e. absurd (op id e);
      ready = λ id l e. elim (Bool-cases (k == id)) [
        | inl at ↦ let eq = (==_iff k id).0 at in rw (at, ← eq) (rd (rw (← eq) at e))
        | inr off ↦ rw off (inl e)
      ];
      taker = λ id e. inl (tk id e);
      joined = λ id l e. elim (Bool-cases (k == id)) [
        | inl at ↦ let eq = (==_iff k id).0 at in rw (at, ← eq) (jn (rw (← eq) at e))
        | inr off ↦ rw off (inl e)
      ];
      same = λ id l. elim (Bool-cases (k == id)) [
        | inl at ↦ let eq = (==_iff k id).0 at in rw (at, ← eq) same_session
        | inr off ↦ rw off refl
      ];
      settled = λ id l e. elim (Bool-cases (k == id)) [
        | inl at ↦ let eq = (==_iff k id).0 at in rw (at, ← eq) (st (rw (← eq) at e))
        | inr off ↦ rw off (e, refl)
      ];
      calm = c;
      filled = λ id a l e. elim (Bool-cases (k == id)) [
        | inl at ↦ let eq = (==_iff k id).0 at in filled_at id a eq l (fl a (rw at at e))
        | inr off ↦ inl (l, rw off at e)
      ];
      forwards = fw;
    }
