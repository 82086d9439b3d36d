-- ===== src/Relay/Server/Safety.antt =====
-- What every state that the relay can reach has.
use p2pft.Prelude.{ℕ, ◌≡◌, ◌≢◌, refl, none, some, inl, inr, Text, arith}
use p2pft.Signaling.Messages.{PeerAddrs}
use p2pft.Relay.Session.{reap}
use p2pft.Relay.Session.Once.{reap-IsGone}
use p2pft.Relay.Server.{
  Object, Shared, handing, left, panicked, Relay, turn, sweep, new_server, Reach, start, next,
}
use p2pft.Relay.Server.Moves.{takes, Fine}
use p2pft.Relay.Server.Invariant.{pc_of, Step-Inv, Inv-new, Reach-Inv, Sound-reap}
use p2pft.Relay.Server.Story.{Story-grow, Given-grow, Addressed-grow}
use p2pft.Relay.Server.Silence.{Tells, Story-mute}
use p2pft.Relay.Server.Meeting.{Served, Met, Ledger, turn-Ledger}

module _ (quote : Text → Text) (addr : ℕ → Text) where
  module _ (s : Relay) (v : Ledger addr s) (now : ℕ) where
    abbrev swept : Shared
    swept = record s.shared { store = reap now s.shared.store }

    abbrev u : Relay
    u = record s { shared = swept }

    -- The reaper does no more to the sessions than a handler that has returned.
    Fine-sweep : Fine left s.shared left swept
    unfolding reap
    Fine-sweep = record {
      sound = Sound-reap quote addr now s.shared v.inv.sound;
      grows = omega arith;
      gone = λ id g. reap-IsGone id now s.shared.store g;
      owner = λ id e. cc e;
      opener = λ id e. cc e;
      ready = λ id l e. inl e;
      taker = λ id e. cc e;
      joined = λ id l e. inl e;
      same = λ id l. refl;
      settled = λ id l e. (e, refl);
      calm = λ e. cc e;
      filled = λ id a l e. inl (l, e);
      forwards = λ id a e. cc e;
    }

    Served-swept : (id : ℕ) (a : PeerAddrs) → Served addr s id a → Served addr u id a
    unfolding reap
    Served-swept id a g = record {
      receiver = g.receiver;
      returned = g.returned;
      given =
          Given-grow left left s.shared swept Fine-sweep (addr g.receiver) id g.old a _ _ g.given;
      old = g.old;
    }

    Met-swept : (i : ℕ) (a : PeerAddrs) → Met addr s i a → Met addr u i a
    Met-swept i a m = record {
      id = m.id;
      sender =
          Addressed-grow left left s.shared swept Fine-sweep (addr i) m.id m.served.old _ m.sender;
      told = m.told;
      served = Served-swept m.id a m.served;
    }

    sweep-Ledger : Ledger addr u
    unfolding reap
    sweep-Ledger = record {
      inv = Step-Inv quote addr v.inv (sweep now);
      story = λ i.
          Story-grow left left s.shared swept Fine-sweep (addr i) _ _ (pc_of s i) (v.inv.may i)
            (v.story i);
      joined = λ id a l e. Served-swept id a (v.joined id a l e);
      forwarded = λ i id a e. Served-swept id a (v.forwarded i id a e);
      met = λ i a e h. Met-swept i a (v.met i a e h);
    }

  Ledger-new : (heap : ℕ → Object) → Ledger addr (new_server heap)
  Ledger-new heap = record {
    inv = Inv-new quote addr heap;
    story = λ i. (refl, refl);
    joined = λ id a l e. absurd (omega (arith, l));
    forwarded = λ i id a e. cc e;
    met = λ i a e h. cc e;
  }

  Reach-Ledger : {heap : ℕ → Object} {s : Relay} → Reach quote addr heap s → Ledger addr s
  Reach-Ledger {heap} start = Ledger-new heap
  Reach-Ledger (next {s} r (turn i x)) = turn-Ledger addr quote s (Reach-Ledger r) i x
  Reach-Ledger (next {s} r (sweep now)) = sweep-Ledger s (Reach-Ledger r) now

  -- In every state that the relay can reach, whatever the connections send and however the handlers
  -- and the reaper take turns: if a connection has been told of a receiver at the addresses `a`,
  -- then it is a sender that said its hello and its addresses and got its code, and there is a
  -- receiver that named this code, was told this sender's file and addresses with the address at
  -- which the relay sees the sender, and gave the addresses `a`, but for the address at which the
  -- relay sees the receiver.
  pub told-Met :
      {heap : ℕ → Object} {s : Relay} (i : ℕ) (a : PeerAddrs)
      → Reach quote addr heap s
      → Tells a (s.clients i).sent
      → Met addr s i a
  told-Met {heap} {s} i a r h =
      let v = Reach-Ledger r in
      elim (Story-mute (addr i) s.shared (pc_of s i) _ _ a (v.story i) h) [
        | inl e ↦ v.met i a e h
        | inr e ↦ absurd (v.inv.calm i e)
      ]

  -- In every state that the relay can reach no handler has panicked by closing a channel twice, no
  -- two handlers have claimed one session, and a handler that hands addresses over finds the
  -- channel of its session empty.
  pub hand_over-IsFree :
      {heap : ℕ → Object} {s : Relay}
      → Reach quote addr heap s
      → ((i : ℕ) → pc_of s i ≢ panicked)
        × ((i j id : ℕ) → takes (pc_of s i) ≡ some id → takes (pc_of s j) ≡ some id → i ≡ j)
        × ((i id : ℕ) (a : PeerAddrs)
            → pc_of s i ≡ handing id a
            → (s.shared.heap id).receiver_joined ≡ none)
  hand_over-IsFree {heap} {s} r =
      let v = Reach-Inv quote addr r in (v.calm, v.one_taker, λ i id a e. (v.may i).quiet id (cc e))
