-- ===== src/Relay/Server/Meeting.antt =====
-- A sender is only told of the receiver that has claimed its session.
use mathlib.Core.Path.{subst}
use p2pft.Prelude.{
  ℕ, ◌<◌, ◌≡◌, refl, sym, ap, ◌∙◌, ◌⊎◌, inl, inr, some, false, ◌==◌, ==_iff, List, [], ◌∷◌, ◌++◌,
  Text, arith, Bool-cases, append-nil,
}
use p2pft.Signaling.Messages.{PeerAddrs, Envelope, receiver_joined_env}
use p2pft.Relay.Server.{
  forwarding, handing, left, Answer, Turn, act, created_env, Client, Relay, moved, after, turn,
}
use p2pft.Relay.Server.Moves.{May, Fine}
use p2pft.Relay.Server.Acts.{act-Fine}
use p2pft.Relay.Server.Invariant.{pc_of, Inv, Step-Inv, client_at, client_off}
use p2pft.Relay.Server.Story.{
  Addressed, Given, Story, Story-grow, Given-grow, Addressed-grow, created_same,
}
use p2pft.Relay.Server.Telling.{act-Told}
use p2pft.Relay.Server.Silence.{Tells, Story-mute, Forwards, act-Forwards, act-handing}

module _ (addr : ℕ → Text) where
  -- A receiver that has returned gave the addresses `a` for session `id`.
  pub record Served (s : Relay) (id : ℕ) (a : PeerAddrs) : Type 0 where
    pub receiver : ℕ
    pub returned : pc_of s receiver ≡ left
    pub given :
        Given (addr receiver) s.shared id a (s.clients receiver).got (s.clients receiver).sent
    pub old : id < s.shared.store.next_id

  -- Connection `i` is a sender that has said and been told all, of a receiver at `a`.
  pub record Met (s : Relay) (i : ℕ) (a : PeerAddrs) : Type 0 where
    pub id : ℕ
    pub sender : Addressed (addr i) s.shared id (s.clients i).got
    pub told :
        (s.clients i).sent
        ≡ created_env (s.shared.heap id) ∷ receiver_joined_env (record { peer = a }) ∷ []
    pub served : Served s id a

  pub record Ledger (s : Relay) : Type 0 where
    pub inv : Inv s
    pub story : (i : ℕ) → Story (addr i) s.shared (pc_of s i) (s.clients i).got (s.clients i).sent
    pub joined :
        (id : ℕ) (a : PeerAddrs)
        → id < s.shared.store.next_id
        → (s.shared.heap id).receiver_joined ≡ some a
        → Served s id a
    pub forwarded : (i id : ℕ) (a : PeerAddrs) → pc_of s i ≡ forwarding id a → Served s id a
    pub met : (i : ℕ) (a : PeerAddrs) → pc_of s i ≡ left → Tells a (s.clients i).sent → Met s i a

  module _ (quote : Text → Text) (s : Relay) (v : Ledger s) (i : ℕ) (x : Answer (pc_of s i)) where
    abbrev t : Turn
    t = act quote (addr i) (pc_of s i) x s.shared

    abbrev u : Relay
    u = after i t s

    fine : Fine (pc_of s i) s.shared t.pc t.shared
    fine = act-Fine quote (addr i) s.shared v.inv.sound (pc_of s i) x (v.inv.may i)

    Story-moved :
        Story (addr i) t.shared t.pc ((s.clients i).got ++ t.got) ((s.clients i).sent ++ t.sent)
    Story-moved =
        act-Told quote (addr i) (s.clients i).got (s.clients i).sent s.shared v.inv.sound
          (pc_of s i) x (v.inv.may i) (v.story i)

    -- A handler that has returned is not the one that moves.
    returned_off : (j : ℕ) → pc_of s j ≡ left → (i == j) ≡ false
    returned_off j e = elim (Bool-cases (i == j)) [
      | inl at ↦ absurd (subst Answer (ap (pc_of s) ((==_iff i j).0 at) ∙ e) x)
      | inr off ↦ off
    ]

    Served-after : (id : ℕ) (a : PeerAddrs) → Served s id a → Served u id a
    Served-after id a g =
        let same : u.clients g.receiver ≡ s.clients g.receiver =
          client_off i g.receiver t s (returned_off g.receiver g.returned) in
        record {
          receiver = g.receiver;
          returned = ap (λ (c : Client). c.pc) same ∙ g.returned;
          given =
              subst (λ (c : Client). Given (addr g.receiver) t.shared id a c.got c.sent) (sym same)
                (Given-grow (pc_of s i) t.pc s.shared t.shared fine (addr g.receiver) id g.old a _ _
                  g.given);
          old = omega (arith, g.old, fine.grows);
        }

    Met-after : (j : ℕ) (a : PeerAddrs) → pc_of s j ≡ left → Met s j a → Met u j a
    Met-after j a e m =
        let same : u.clients j ≡ s.clients j = client_off i j t s (returned_off j e) in
        record {
          id = m.id;
          sender =
              subst (λ (c : Client). Addressed (addr j) t.shared m.id c.got) (sym same)
                (Addressed-grow (pc_of s i) t.pc s.shared t.shared fine (addr j) m.id m.served.old _
                  m.sender);
          told =
              ap (λ (c : Client). c.sent) same
              ∙ m.told
              ∙ ap (λ (e : Envelope). e ∷ receiver_joined_env (record { peer = a }) ∷ [])
                  (sym (
                    created_same (pc_of s i) t.pc s.shared t.shared fine (addr j) m.id
                      m.served.old));
          served = Served-after m.id a m.served;
        }

    handed : (id : ℕ) (a : PeerAddrs) → pc_of s i ≡ handing id a → Served u id a
    handed id a e =
        let (over, no_got, no_sent) = act-handing quote (addr i) s.shared id a (pc_of s i) x e in
        let may : May (handing id a) s.shared = subst (λ pc. May pc s.shared) e (v.inv.may i) in
        let given : Given (addr i) s.shared id a (s.clients i).got (s.clients i).sent =
          subst (λ pc. Story (addr i) s.shared pc (s.clients i).got (s.clients i).sent) e
            (v.story i) in
        let old : id < s.shared.store.next_id = (may.taken id refl).past in
        let grown =
          Given-grow (pc_of s i) t.pc s.shared t.shared fine (addr i) id old a _ _ given in
        let same : u.clients i ≡ moved (s.clients i) t = client_at i i t s ((==_iff i i).1 refl) in
        record {
          receiver = i;
          returned = ap (λ (c : Client). c.pc) same ∙ over;
          given =
              subst (λ (c : Client). Given (addr i) t.shared id a c.got c.sent) (sym same)
                (rw (no_got, no_sent, append-nil (s.clients i).got, append-nil (s.clients i).sent)
                  grown);
          old = omega (arith, old, fine.grows);
        }

    at_move :
        (P : ℕ → Client → Type 0)
        → P i (moved (s.clients i) t)
        → ((j : ℕ) → P j (s.clients j))
        → (j : ℕ) → P j (u.clients j)
    at_move P h k j = elim (Bool-cases (i == j)) [
      | inl at ↦
          subst (P j) (sym (client_at i j t s at))
            (subst (λ (n : ℕ). P n (moved (s.clients i) t)) ((==_iff i j).0 at) h)
      | inr off ↦ subst (P j) (sym (client_off i j t s off)) (k j)
    ]

    forwarded_after : (j id : ℕ) (a : PeerAddrs) → pc_of u j ≡ forwarding id a → Served u id a
    forwarded_after =
        at_move (λ j c. (id : ℕ) (a : PeerAddrs) → c.pc ≡ forwarding id a → Served u id a)
          (λ id a e. let (l, h) = fine.forwards id a e in Served-after id a (v.joined id a l h))
          (λ j id a e. Served-after id a (v.forwarded j id a e))

    Tells-append :
        (a : PeerAddrs) (es fs : List Envelope) → Tells a (es ++ fs) → Tells a es ⊎ Tells a fs
    Tells-append a [] fs h = inr h
    Tells-append a (e ∷ es) fs (inl h) = inl (inl h)
    Tells-append a (e ∷ es) fs (inr h) = elim (Tells-append a es fs h) [
      | inl k ↦ inl (inr k)
      | inr k ↦ inr k
    ]

    Forwards-Met : (a : PeerAddrs) → Forwards a (pc_of s i) t → Met u i a
    Forwards-Met a (id, e, no_got, one_sent) =
        let (both, told) =
          subst (λ pc. Story (addr i) s.shared pc (s.clients i).got (s.clients i).sent) e
            (v.story i) in
        let g = v.forwarded i id a e in
        let same : u.clients i ≡ moved (s.clients i) t = client_at i i t s ((==_iff i i).1 refl) in
        record {
          id = id;
          sender =
              subst (λ (c : Client). Addressed (addr i) t.shared id c.got) (sym same)
                (rw (no_got, append-nil (s.clients i).got)
                  (Addressed-grow (pc_of s i) t.pc s.shared t.shared fine (addr i) id g.old _
                    both));
          told =
              ap (λ (c : Client). c.sent) same
              ∙ rw
                  (one_sent, created_same (pc_of s i) t.pc s.shared t.shared fine (addr i) id g.old)
                  (ap (λ (l : List Envelope). l ++ receiver_joined_env (record { peer = a }) ∷ [])
                    told);
          served = Served-after id a g;
        }

    Met-moved : (a : PeerAddrs) → Tells a ((s.clients i).sent ++ t.sent) → Met u i a
    Met-moved a h = elim (Tells-append a (s.clients i).sent t.sent h) [
      | inl old ↦ elim (Story-mute (addr i) s.shared (pc_of s i) _ _ a (v.story i) old) [
        | inl e ↦ absurd (subst Answer e x)
        | inr e ↦ absurd (v.inv.calm i e)
      ]
      | inr new ↦ Forwards-Met a (act-Forwards quote (addr i) s.shared a (pc_of s i) x new)
    ]

    at_move-Met :
        (j : ℕ) (a : PeerAddrs) → pc_of u j ≡ left → Tells a (u.clients j).sent → Met u j a
    at_move-Met =
        at_move (λ j c. (a : PeerAddrs) → c.pc ≡ left → Tells a c.sent → Met u j a)
          (λ a e h. Met-moved a h) (λ j a e h. Met-after j a e (v.met j a e h))

    pub turn-Ledger : Ledger u
    turn-Ledger = record {
      inv = Step-Inv quote addr v.inv (turn i x);
      story =
          at_move (λ j c. Story (addr j) t.shared c.pc c.got c.sent) Story-moved
            (λ j.
              Story-grow (pc_of s i) t.pc s.shared t.shared fine (addr j) _ _ (pc_of s j)
                (v.inv.may j) (v.story j));
      joined = λ id a l e. elim (fine.filled id a l e) [
        | inl (l', e') ↦ Served-after id a (v.joined id a l' e')
        | inr h ↦ handed id a h
      ];
      forwarded = forwarded_after;
      met = at_move-Met;
    }
