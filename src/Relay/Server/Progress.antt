-- ===== src/Relay/Server/Progress.antt =====
-- A sender and a receiver can meet at the relay, and a session can be lost there.
use p2pft.Prelude.{some, pos, ℕ, ◌≡◌, refl, [], ◌∷◌, none, Text, codes}
use p2pft.Io.Result.{ok}
use p2pft.Signaling.Messages.{
  SenderHello, PeerAddrs, sender_hello_env, receiver_hello_env, peer_addrs_env, session_created_env,
  session_found_env, receiver_joined_env, session_error_env,
}
use p2pft.Signaling.Codes.{generate_code}
use p2pft.Relay.Session.{Session, session_ttl, create, claim}
use p2pft.Relay.Server.{
  Answer, code_of, after, Object, channel, done, parked, act, Relay, turn, new_server, Reach, start,
  next,
}

-- The code of the draws 0, 0 and 0.
abbrev pub first_code : Text
first_code = codes "amber-amber-amber"

module _ (quote : Text → Text) (addr : ℕ → Text) (heap : ℕ → Object) (hello : SenderHello)
    (p q : PeerAddrs) where
  -- Connection 0 is the sender's and connection 1 the receiver's: all that each has said, and all
  -- that it has been told.
  pub record Meets (s : Relay) : Type 0 where
    pub sender_said : (s.clients 0).got ≡ sender_hello_env hello ∷ peer_addrs_env p ∷ []
    pub sender_told :
        (s.clients 0).sent
        ≡ session_created_env (record { code = first_code; expires_in = pos session_ttl })
          ∷ receiver_joined_env (record { peer = record q { public = addr 1 } })
          ∷ []
    pub receiver_said :
        (s.clients 1).got
        ≡ receiver_hello_env (record { code = first_code }) ∷ peer_addrs_env q ∷ []
    pub receiver_told :
        (s.clients 1).sent
        ≡ session_found_env (record {
          filename = hello.filename;
          size = hello.size;
          sha256 = hello.sha256;
          peer = record p { public = addr 0 };
        })
          ∷ []

  -- Whatever a sender and a receiver have to say, there is an order of events in which each says
  -- it, the receiver is told of the sender and the sender of the receiver, and neither of anything
  -- else.
  pub meeting_possible : (s : Relay) × Reach quote addr heap s × Meets s
  unfolding act create claim generate_code
  meeting_possible =
      let r₀ : Reach quote addr heap (new_server heap) = start in
      let r₁ = next r₀ (turn 0 (ok (sender_hello_env hello))) in
      let r₂ = next r₁ (turn 0 (record { now = 0; first = ok 0; second = ok 0; third = ok 0 })) in
      let r₃ = next r₂ (turn 0 (ok tt)) in
      let r₄ = next r₃ (turn 0 (ok (peer_addrs_env p))) in
      let r₅ = next r₄ (turn 1 (ok (receiver_hello_env (record { code = first_code })))) in
      let r₆ = next r₅ (turn 1 tt) in
      let r₇ = next r₆ (turn 1 channel) in
      let r₈ = next r₇ (turn 1 (ok tt)) in
      let r₉ = next r₈ (turn 1 (ok (peer_addrs_env q))) in
      let r₁₀ = next r₉ (turn 1 tt) in
      let r₁₁ = next r₁₀ (turn 0 channel) in
      (
        _,
        next r₁₁ (turn 0 (ok tt)),
        record {
          sender_said = refl;
          sender_told = refl;
          receiver_said = refl;
          receiver_told = refl;
        },
      )

module _ (quote : Text → Text) (addr : ℕ → Text) where
  -- Moves of the handler of connection `i` and of no other.
  pub data Moves (i : ℕ) (s : Relay) : Relay → Type 0 where
    rests : Moves i s s
    moves :
        {t : Relay}
        → Moves i s t
        → (a : Answer (t.clients i).pc)
        → Moves i s (after i (act quote (addr i) (t.clients i).pc a t.shared) t)

  -- Connection 1 is a sender that waits for a receiver, with a code that it has been told.
  pub record Waits (s : Relay) : Type 0 where
    pub at : (s.clients 1).pc ≡ parked 1
    pub told :
        (s.clients 1).sent
        ≡ session_created_env (record { code = first_code; expires_in = pos session_ttl }) ∷ []
    pub code : code_of s.shared 1 ≡ first_code
    pub unmet : (s.shared.heap 1).receiver_joined ≡ none

  -- In `s` the store has the session of connection 1, whose code is also that of the sender at
  -- connection 0. That sender gives up, which leads to `t`, and connection 3 comes, up to `u`.
  pub record Loses (s t u : Relay) : Type 0 where
    pub waits : Waits s
    pub session : Session
    pub stored : s.shared.store.sessions first_code ≡ some session
    pub its_own : session.id ≡ 1
    pub other : (s.clients 0).pc ≡ parked 0
    pub same_code : code_of s.shared 0 ≡ first_code
    pub gives_up : t ≡ after 0 (act quote (addr 0) (parked 0) done s.shared) s
    pub still_waits : Waits t
    pub lost : t.shared.store.sessions first_code ≡ none
    pub comes : Moves 3 t u
    pub waits_on : Waits u
    pub asked : (u.clients 3).got ≡ receiver_hello_env (record { code = first_code }) ∷ []
    pub refused :
        (u.clients 3).sent
        ≡ session_error_env (record { reason = codes "code not found or already claimed" }) ∷ []

  -- A sender that gives up takes the session of another sender with it, if that has got the same
  -- code since: the relay can reach a state in which the store has the session of a second sender,
  -- which is parked with its code, and in which the first sender, whose session had the same code,
  -- is parked too. When the first sender's wait ends, the code is in the store no more. The second
  -- sender still waits, and a receiver that comes and names the code is told that there is none.
  pub other_session_lost :
      (heap : ℕ → Object) (first second : SenderHello) (p q : PeerAddrs)
      → (s : Relay) × (t : Relay) × (u : Relay) × Reach quote addr heap s × Loses s t u
  unfolding act create claim generate_code
  other_session_lost heap first second p q =
      let r₀ : Reach quote addr heap (new_server heap) = start in
      let r₁ = next r₀ (turn 0 (ok (sender_hello_env first))) in
      let r₂ = next r₁ (turn 0 (record { now = 0; first = ok 0; second = ok 0; third = ok 0 })) in
      let r₃ = next r₂ (turn 0 (ok tt)) in
      let r₄ = next r₃ (turn 0 (ok (peer_addrs_env p))) in
      let r₅ = next r₄ (turn 2 (ok (receiver_hello_env (record { code = first_code })))) in
      let r₆ = next r₅ (turn 2 tt) in
      let r₇ = next r₆ (turn 1 (ok (sender_hello_env second))) in
      let r₈ = next r₇ (turn 1 (record { now = 0; first = ok 0; second = ok 0; third = ok 0 })) in
      let r₉ = next r₈ (turn 1 (ok tt)) in
      let r₁₀ = next r₉ (turn 1 (ok (peer_addrs_env q))) in
      (
        _,
        _,
        _,
        r₁₀,
        record {
          waits = record { at = refl; told = refl; code = refl; unmet = refl };
          session = _;
          stored = refl;
          its_own = refl;
          other = refl;
          same_code = refl;
          gives_up = refl;
          still_waits = record { at = refl; told = refl; code = refl; unmet = refl };
          lost = refl;
          comes =
              moves
                (moves (moves rests (ok (receiver_hello_env (record { code = first_code })))) tt)
                (ok tt);
          waits_on = record { at = refl; told = refl; code = refl; unmet = refl };
          asked = refl;
          refused = refl;
        },
      )
