-- ===== src/Relay/Session.antt =====
-- internal/relay/session.go: the store of sessions. Each method runs under the store's mutex, so
-- the store changes by whole calls.
pub mod Once
pub mod Table
use p2pft.Prelude.{
  ℕ, ◌+◌, ◌-◌, ◌*◌, ◌^◌, Option, none, some, Bool, not, ltb, if◌then◌else◌, List, [], ◌∷◌, Text,
  eqb_text,
}
use p2pft.Signaling.Messages.{SenderHello}

-- Durations are in seconds.
abbrev pub session_ttl : ℕ
session_ttl = 10 * 60

abbrev pub reaper_every : ℕ
reaper_every = 60

-- The fields of a `Session` that never change. `id` stands for its pointer, by which the handlers
-- share the fields that do: no two sessions have one.
pub record Session : Type 0 where
  pub id : ℕ
  pub code : Text
  pub sender_hello : SenderHello
  pub created_at : ℕ

-- The map and the pointer of the next session.
pub record SessionStore : Type 0 where
  pub sessions : Text → Option Session
  pub next_id : ℕ

abbrev pub new_session_store : SessionStore
new_session_store = record { sessions = λ _. none; next_id = 0 }

abbrev pub put : (Text → Option Session) → Text → Option Session → Text → Option Session
put sessions code v c = if eqb_text code c then v else sessions c

abbrev pub create_at :
    Option Session → ℕ → Text → SenderHello → SessionStore → Option Session × SessionStore
create_at (some _) now code hello s = (none, s)
create_at none now code hello s =
    let sess : Session = record {
      id = s.next_id;
      code = code;
      sender_hello = hello;
      created_at = now;
    } in
    (some sess, record { sessions = put s.sessions code (some sess); next_id = s.next_id + 1 })

-- `Create`; `now` is the answer of `time.Now`. No session means that the code is taken.
unfoldable pub create : ℕ → Text → SenderHello → SessionStore → Option Session × SessionStore
create now code hello s = create_at (s.sessions code) now code hello s

abbrev pub claim_at : Option Session → Text → SessionStore → Option Session × SessionStore
claim_at none code s = (none, s)
claim_at (some sess) code s = (some sess, record s { sessions = put s.sessions code none })

-- `Claim`
unfoldable pub claim : Text → SessionStore → Option Session × SessionStore
claim code s = claim_at (s.sessions code) code s

-- `now.Sub(sess.CreatedAt) > SessionTTL`
abbrev pub expired : ℕ → Session → Bool
expired now sess = ltb session_ttl (now - sess.created_at)

abbrev pub keep_fresh : ℕ → Option Session → Option Session
keep_fresh now none = none
keep_fresh now (some sess) = if expired now sess then none else some sess

-- One sweep of the reaper, at the time `now` of its tick.
unfoldable pub reap : ℕ → SessionStore → SessionStore
reap now s = record s { sessions = λ code. keep_fresh now (s.sessions code) }
