-- ===== src/Relay/Session/Once.antt =====
-- A session is claimed at most once, however the calls of the handlers and the reaper interleave.
use p2pft.Prelude.{
  ℕ, ◌<◌, ◌≡◌, ◌≢◌, ◌∙◌, none, some, List, [], ◌∷◌, Text, eqb_text→eq, eqb_text_refl, arith, inl,
  inr, Option-cases,
}
use p2pft.Signaling.Messages.{SenderHello}
use p2pft.Relay.Session.{Session, SessionStore, put, create, claim, reap, new_session_store}

-- A call of the store, as some handler or the reaper makes it.
pub data Call : Type 0 where
  creates : ℕ → Text → SenderHello → Call
  claims : Text → Call
  reaps : ℕ → Call

abbrev pub step : Call → SessionStore → SessionStore
step (creates now code hello) s = (create now code hello s).1
step (claims code) s = (claim code s).1
step (reaps now) s = reap now s

unfoldable pub run : List Call → SessionStore → SessionStore
run [] s = s
run (c ∷ cs) s = run cs (step c s)

-- Each session stands under its own code, and its pointer has been given out.
pub record IsValid (s : SessionStore) : Type 0 where
  pub own_code : (code : Text) (x : Session) → s.sessions code ≡ some x → x.code ≡ code
  pub given_out : (code : Text) (x : Session) → s.sessions code ≡ some x → x.id < s.next_id
  pub unique :
      (c d : Text) (x y : Session)
      → s.sessions c ≡ some x
      → s.sessions d ≡ some y
      → x.id ≡ y.id
      → c ≡ d

pub create-IsValid :
    (now : ℕ) (code : Text) (hello : SenderHello) (s : SessionStore)
    → IsValid s
    → IsValid (create now code hello s).1
unfolding create
create-IsValid now code hello s v = elim (Option-cases (s.sessions code)) [
  | inl free ↦ rw free (record {
    own_code = λ c x e. ground (arith, v.own_code c x, eqb_text→eq code c);
    given_out = λ c x e. ground (arith, v.given_out c x);
    unique = λ c d x y e f h. ground (
      arith,
      v.given_out c x,
      v.given_out d y,
      v.unique c d x y,
      eqb_text→eq code c,
      eqb_text→eq code d,
    );
  })
  | inr (y, taken) ↦ rw taken v
]

pub claim-IsValid : (code : Text) (s : SessionStore) → IsValid s → IsValid (claim code s).1
unfolding claim
claim-IsValid code s v = elim (Option-cases (s.sessions code)) [
  | inl free ↦ rw free v
  | inr (y, taken) ↦ rw taken (record {
    own_code = λ c x e. ground (arith, v.own_code c x);
    given_out = λ c x e. ground (arith, v.given_out c x);
    unique = λ c d x y e f h. ground (arith, v.unique c d x y);
  })
]

pub reap-IsValid : (now : ℕ) (s : SessionStore) → IsValid s → IsValid (reap now s)
unfolding reap
reap-IsValid now s v = record {
  own_code = λ c x e. ground (arith, v.own_code c x);
  given_out = λ c x e. ground (arith, v.given_out c x);
  unique = λ c d x y e f h. ground (arith, v.unique c d x y);
}

step-IsValid : (c : Call) (s : SessionStore) → IsValid s → IsValid (step c s)
step-IsValid (creates now code hello) s v = create-IsValid now code hello s v
step-IsValid (claims code) s v = claim-IsValid code s v
step-IsValid (reaps now) s v = reap-IsValid now s v

-- No session in the store has the pointer `id`, and none will get it.
pub record IsGone (id : ℕ) (s : SessionStore) : Type 0 where
  pub past : id < s.next_id
  pub absent : (code : Text) (x : Session) → s.sessions code ≡ some x → x.id ≢ id

pub create-IsGone :
    (id now : ℕ) (code : Text) (hello : SenderHello) (s : SessionStore)
    → IsGone id s
    → IsGone id (create now code hello s).1
unfolding create
create-IsGone id now code hello s g = elim (Option-cases (s.sessions code)) [
  | inl free ↦ rw free (record {
    past = omega (arith, g.past);
    absent = λ c x e h. ground (arith, g.absent c x, g.past);
  })
  | inr (y, taken) ↦ rw taken g
]

pub claim-IsGone :
    (id : ℕ) (code : Text) (s : SessionStore) → IsGone id s → IsGone id (claim code s).1
unfolding claim
claim-IsGone id code s g = elim (Option-cases (s.sessions code)) [
  | inl free ↦ rw free g
  | inr (y, taken) ↦
      rw taken (record { past = g.past; absent = λ c x e h. ground (arith, g.absent c x) })
]

pub reap-IsGone : (id now : ℕ) (s : SessionStore) → IsGone id s → IsGone id (reap now s)
unfolding reap
reap-IsGone id now s g = record { past = g.past; absent = λ c x e h. ground (arith, g.absent c x) }

run-IsGone : (id : ℕ) (cs : List Call) (s : SessionStore) → IsGone id s → IsGone id (run cs s)
unfolding run
run-IsGone id [] s g = g
run-IsGone id (creates now code hello ∷ cs) s g =
    run-IsGone id cs (create now code hello s).1 (create-IsGone id now code hello s g)
run-IsGone id (claims code ∷ cs) s g = run-IsGone id cs (claim code s).1 (claim-IsGone id code s g)
run-IsGone id (reaps now ∷ cs) s g = run-IsGone id cs (reap now s) (reap-IsGone id now s g)

-- What a successful claim says about the store.
pub claim_sound :
    (code : Text) (s s' : SessionStore) (x : Session)
    → claim code s ≡ (some x, s')
    → (s.sessions code ≡ some x) × (s' ≡ record s { sessions = put s.sessions code none })
unfolding claim
claim_sound code s s' x h = elim (Option-cases (s.sessions code)) [
  | inl free ↦ cc (rw free at h)
  | inr (y, taken) ↦ let k = rw taken at h in (taken ∙ cc k, cc k)
]

pub claimed-IsGone :
    (code : Text) (s s' : SessionStore) (x : Session)
    → IsValid s
    → claim code s ≡ (some x, s')
    → IsGone x.id s'
claimed-IsGone code s s' x v h =
    let (at, after) = claim_sound code s s' x h in
    rw after (record {
      past = v.given_out code x at;
      absent = λ c y e k. ground (arith, v.unique code c x y at, eqb_text_refl code);
    })

-- Once a session has been claimed, no later claim of any code returns it again, whatever calls
-- the handlers and the reaper make in between.
pub claim-once :
    (s s' s'' : SessionStore) (code code' : Text) (x y : Session) (between : List Call)
    → IsValid s
    → claim code s ≡ (some x, s')
    → claim code' (run between s') ≡ (some y, s'')
    → y.id ≢ x.id
claim-once s s' s'' code code' x y between v h k =
    let g = run-IsGone x.id between s' (claimed-IsGone code s s' x v h) in
    g.absent code' y (claim_sound code' (run between s') s'' y k).0

pub run-IsValid : (cs : List Call) (s : SessionStore) → IsValid s → IsValid (run cs s)
unfolding run
run-IsValid [] s v = v
run-IsValid (c ∷ cs) s v = run-IsValid cs (step c s) (step-IsValid c s v)

pub IsValid-new : IsValid new_session_store
IsValid-new = record {
  own_code = λ c x e. cc e;
  given_out = λ c x e. cc e;
  unique = λ c d x y e f h. cc e;
}
