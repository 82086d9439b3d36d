-- ===== src/Relay/Server/Invariant.antt =====
-- What holds in every state that the relay can reach.
use mathlib.Core.Path.{subst}
use p2pft.Prelude.{
  ℕ, ◌≡◌, ◌≢◌, sym, ap, ◌∙◌, ◌⊎◌, inl, inr, Option, none, some, true, false, ◌==◌, ==_iff,
  if◌then◌else◌, Text, arith, Bool-cases,
}
use p2pft.Relay.Session.{reap}
use p2pft.Relay.Session.Once.{reap-IsValid, reap-IsGone, IsValid-new}
use p2pft.Relay.Server.{
  Object, Shared, Pc, Answer, Turn, act, Client, Relay, moved, after, announcing, addressing,
  panicked, Step, turn, sweep, new_server, Reach, start, next,
}
use p2pft.Relay.Server.Moves.{owns, opening, takes, Sound, May, Fine}
use p2pft.Relay.Server.Acts.{act-Fine}

abbrev pub pc_of : Relay → ℕ → Pc
pc_of s i = (s.clients i).pc

pub record Inv (s : Relay) : Type 0 where
  pub sound : Sound s.shared
  pub may : (i : ℕ) → May (pc_of s i) s.shared
  pub one_owner : (i j id : ℕ) → owns (pc_of s i) ≡ some id → owns (pc_of s j) ≡ some id → i ≡ j
  pub one_taker : (i j id : ℕ) → takes (pc_of s i) ≡ some id → takes (pc_of s j) ≡ some id → i ≡ j
  pub calm : (i : ℕ) → pc_of s i ≢ panicked

pub opening-owns : (pc : Pc) (id : ℕ) → opening pc ≡ some id → owns pc ≡ some id
opening-owns (announcing id) j e = e
opening-owns (addressing id) j e = e
opening-owns Pc.fresh j e = cc e
opening-owns (Pc.coding h k) j e = cc e
opening-owns (Pc.parked id) j e = cc e
opening-owns (Pc.forwarding id p) j e = cc e
opening-owns (Pc.claiming c) j e = cc e
opening-owns (Pc.waiting id) j e = cc e
opening-owns (Pc.finding id) j e = cc e
opening-owns (Pc.asking id) j e = cc e
opening-owns (Pc.handing id p) j e = cc e
opening-owns (Pc.erring r) j e = cc e
opening-owns Pc.left j e = cc e
opening-owns panicked j e = cc e

-- The handler that has moved.
May-moved :
    (pc pc' : Pc) (sh sh' : Shared) → Sound sh → May pc sh → Fine pc sh pc' sh' → May pc' sh'
May-moved pc pc' sh sh' sound m f = record {
  owned = λ id e. elim (f.owner id e) [
    | inl old ↦ omega (arith, m.owned id old, f.grows)
    | inr (_, new) ↦ new
  ];
  unready = f.opener;
  taken = λ id e. elim (f.taker id e) [
    | inl old ↦ f.gone id (m.taken id old)
    | inr (code, x, at, same, gone) ↦ gone
  ];
  quiet = λ id e. elim (f.taker id e) [
    | inl old ↦ still id e (f.joined id (m.taken id old).past (m.quiet id old))
    | inr (code, x, at, same, gone) ↦ still id e (
        f.joined id (rw (← same) (sound.valid.given_out code x at))
          (rw (← same) (sound.empty code x at)))
  ];
}
  where
    still :
        (id : ℕ)
        → takes pc' ≡ some id
        → ((sh'.heap id).receiver_joined ≡ none) ⊎ ((takes pc ≡ some id) × (takes pc' ≡ none))
        → (sh'.heap id).receiver_joined ≡ none
    still id e (inl free) = free
    still id e (inr (_, over)) = cc (e, over)

-- A handler that has not moved, if the one that has is neither the sender nor the receiver of its
-- session.
May-other :
    (pc pc' q : Pc) (sh sh' : Shared)
    → ((id : ℕ) → opening pc ≡ some id → opening q ≢ some id)
    → ((id : ℕ) → takes pc ≡ some id → takes q ≢ some id)
    → Fine pc sh pc' sh'
    → May q sh
    → May q sh'
May-other pc pc' q sh sh' op tk f m = record {
  owned = λ id e. omega (arith, m.owned id e, f.grows);
  unready = λ id e. elim (f.ready id (m.owned id (opening-owns q id e)) (m.unready id e)) [
    | inl early ↦ early
    | inr mine ↦ absurd (op id mine e)
  ];
  taken = λ id e. f.gone id (m.taken id e);
  quiet = λ id e. elim (f.joined id (m.taken id e).past (m.quiet id e)) [
    | inl free ↦ free
    | inr (mine, _) ↦ absurd (tk id mine e)
  ];
}

pub client_at :
    (i j : ℕ) (t : Turn) (s : Relay)
    → (i == j) ≡ true
    → (after i t s).clients j ≡ moved (s.clients i) t
client_at i j t s e = ap (λ b. if b then moved (s.clients i) t else s.clients j) e

pub client_off :
    (i j : ℕ) (t : Turn) (s : Relay) → (i == j) ≡ false → (after i t s).clients j ≡ s.clients j
client_off i j t s e = ap (λ b. if b then moved (s.clients i) t else s.clients j) e

module _ (quote : Text → Text) (addr : ℕ → Text) where
  module _ (s : Relay) (v : Inv s) (i : ℕ) (a : Answer (pc_of s i)) where
    abbrev t : Turn
    t = act quote (addr i) (pc_of s i) a s.shared

    fine : Fine (pc_of s i) s.shared t.pc t.shared
    fine = act-Fine quote (addr i) s.shared v.sound (pc_of s i) a (v.may i)

    after_moved :
        (P : Pc → Type 0)
        → P t.pc
        → ((j : ℕ) → (i == j) ≡ false → P (pc_of s j))
        → (j : ℕ) → P (pc_of (after i t s) j)
    after_moved P h k j = elim (Bool-cases (i == j)) [
      | inl at ↦ subst (λ (c : Client). P c.pc) (sym (client_at i j t s at)) h
      | inr off ↦ subst (λ (c : Client). P c.pc) (sym (client_off i j t s off)) (k j off)
    ]

    fresh_owner : (j id : ℕ) → (i == j) ≡ false → owns t.pc ≡ some id → owns (pc_of s j) ≢ some id
    fresh_owner j id off e k = elim (fine.owner id e) [
      | inl old ↦ absurd (ground (arith, off, v.one_owner i j id old k))
      | inr (new, _) ↦ absurd (omega (arith, new, (v.may j).owned id k))
    ]

    fresh_taker : (j id : ℕ) → (i == j) ≡ false → takes t.pc ≡ some id → takes (pc_of s j) ≢ some id
    fresh_taker j id off e k = elim (fine.taker id e) [
      | inl old ↦ absurd (ground (arith, off, v.one_taker i j id old k))
      | inr (code, x, at, same, gone) ↦ ((v.may j).taken id k).absent code x at same
    ]

    one_of :
        (f : Pc → Option ℕ)
        → ((j id : ℕ) → (i == j) ≡ false → f t.pc ≡ some id → f (pc_of s j) ≢ some id)
        → ((j k id : ℕ) → f (pc_of s j) ≡ some id → f (pc_of s k) ≡ some id → j ≡ k)
        → (j k id : ℕ) → f (pc_of (after i t s) j) ≡ some id
        → f (pc_of (after i t s) k) ≡ some id
        → j ≡ k
    one_of f new old j k id e h = elim (Bool-cases (i == j)) [
      | inl at ↦ elim (Bool-cases (i == k)) [
        | inl at' ↦ sym ((==_iff i j).0 at) ∙ (==_iff i k).0 at'
        | inr off' ↦ absurd (new k id off' (cc e) (cc (h, client_off i k t s off')))
      ]
      | inr off ↦ elim (Bool-cases (i == k)) [
        | inl at' ↦ absurd (new j id off (cc h) (cc (e, client_off i j t s off)))
        | inr off' ↦ old j k id (cc (e, client_off i j t s off)) (cc (h, client_off i k t s off'))
      ]
    ]

    turn-Inv : Inv (after i t s)
    turn-Inv = record {
      sound = fine.sound;
      may =
          after_moved (λ q. May q t.shared)
            (May-moved (pc_of s i) t.pc s.shared t.shared v.sound (v.may i) fine)
            (λ j off.
              May-other (pc_of s i) t.pc (pc_of s j) s.shared t.shared
                (λ id e k. absurd (
                  ground
                    (arith, off, v.one_owner i j id (opening-owns _ id e) (opening-owns _ id k))))
                (λ id e k. absurd (ground (arith, off, v.one_taker i j id e k))) fine (v.may j));
      one_owner = one_of owns fresh_owner v.one_owner;
      one_taker = one_of takes fresh_taker v.one_taker;
      calm = after_moved (λ q. q ≢ panicked) fine.calm (λ j off. v.calm j);
    }

  pub Sound-reap :
      (now : ℕ) (sh : Shared) → Sound sh → Sound (record sh { store = reap now sh.store })
  unfolding reap
  Sound-reap now sh v = record {
    valid = reap-IsValid now sh.store v.valid;
    own = λ c x e. ground (arith, v.own c x);
    empty = λ c x e. ground (arith, v.empty c x);
  }

  sweep-Inv :
      (s : Relay)
      → Inv s
      → (now : ℕ) → Inv (record s { shared = record s.shared { store = reap now s.shared.store } })
  unfolding reap
  sweep-Inv s v now = record {
    sound = Sound-reap now s.shared v.sound;
    may = λ i. record {
      owned = (v.may i).owned;
      unready = (v.may i).unready;
      taken = λ id e. reap-IsGone id now s.shared.store ((v.may i).taken id e);
      quiet = (v.may i).quiet;
    };
    one_owner = v.one_owner;
    one_taker = v.one_taker;
    calm = v.calm;
  }

  pub Step-Inv : {s t : Relay} → Inv s → Step quote addr s t → Inv t
  Step-Inv {s} v (turn i a) = turn-Inv s v i a
  Step-Inv {s} v (sweep now) = sweep-Inv s v now

  pub Inv-new : (heap : ℕ → Object) → Inv (new_server heap)
  Inv-new heap = record {
    sound = record { valid = IsValid-new; own = λ c x e. cc e; empty = λ c x e. cc e };
    may = λ i. record {
      owned = λ id e. cc e;
      unready = λ id e. cc e;
      taken = λ id e. cc e;
      quiet = λ id e. cc e;
    };
    one_owner = λ i j id e h. cc e;
    one_taker = λ i j id e h. cc e;
    calm = λ i e. cc e;
  }

  pub Reach-Inv : {heap : ℕ → Object} {s : Relay} → Reach quote addr heap s → Inv s
  Reach-Inv {heap} start = Inv-new heap
  Reach-Inv (next r st) = Step-Inv (Reach-Inv r) st
