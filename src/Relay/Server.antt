-- ===== src/Relay/Server.antt =====
-- internal/relay/server.go: one handler for each websocket connection, over the shared store.
pub mod Moves
pub mod Acts
pub mod Invariant
pub mod Story
pub mod Telling
pub mod Silence
pub mod Meeting
pub mod Safety
pub mod Progress
use p2pft.Prelude.{
  pos, ℕ, zero, suc, Option, none, some, Bool, true, false, ◌==◌, if◌then◌else◌, List, [], ◌∷◌,
  ◌++◌, Text, codes,
}
use p2pft.Io.Result.{Error, Result, ok, err, message}
use p2pft.Signaling.Messages.{
  SenderHello, ReceiverHello, PeerAddrs, MessageType, sender_hello, receiver_hello, peer_addrs,
  Envelope, sender_hello_env, receiver_hello_env, peer_addrs_env, session_created_env,
  session_found_env, receiver_joined_env, session_error_env, malformed, type_of, type_text,
}
use p2pft.Signaling.Codes.{generate_code}
use p2pft.Relay.Session.{Session, SessionStore, session_ttl, new_session_store, create, claim, reap}

abbrev pub code_collision_max_retries : ℕ
code_collision_max_retries = 5

-- A `Session` that the handlers share: `sender_ready` says whether `SenderReady` is closed, and
-- `receiver_joined` is the buffer of the channel, which has one place.
pub record Object : Type 0 where
  pub session : Session
  pub sender_addrs : PeerAddrs
  pub sender_ready : Bool
  pub receiver_joined : Option PeerAddrs

-- `heap` has the object of each pointer that the store has given out.
pub record Shared : Type 0 where
  pub store : SessionStore
  pub heap : ℕ → Object

-- Where a handler stands, with the local variables that are live there. An `id` is its `sess`.
pub data Pc : Type 0 where
  -- `ServeHTTP`, before the first message
  fresh : Pc
  -- `handleSender`: the loop of codes, with the rounds left; `Send` of `SessionCreated`; the
  -- addresses; the `select`; `Send` of `ReceiverJoined`
  coding : SenderHello → ℕ → Pc
  announcing : (id : ℕ) → Pc
  addressing : (id : ℕ) → Pc
  parked : (id : ℕ) → Pc
  forwarding : (id : ℕ) → PeerAddrs → Pc
  -- `handleReceiver`: `Claim`; the wait for the sender; `Send` of `SessionFound`; the addresses;
  -- the hand-off
  claiming : (code : Text) → Pc
  waiting : (id : ℕ) → Pc
  finding : (id : ℕ) → Pc
  asking : (id : ℕ) → Pc
  handing : (id : ℕ) → PeerAddrs → Pc
  -- `sendError`, the return, and a panic of the runtime
  erring : (reason : Text) → Pc
  left : Pc
  panicked : Pc

-- How a `select` goes on: with its channel, or with the end of its context.
pub data Wake : Type 0 where
  channel done : Wake

-- The three draws of `GenerateCode` and the time of `Create`.
pub record Draw : Type 0 where
  pub now : ℕ
  pub first : Result ℕ
  pub second : Result ℕ
  pub third : Result ℕ

-- What the world answers to the call at which a handler stands.
abbrev pub Answer : Pc → Type 0
Answer fresh = Result Envelope
Answer (coding hello tries) = Draw
Answer (announcing id) = Result (Unit {0})
Answer (addressing id) = Result Envelope
Answer (parked id) = Wake
Answer (forwarding id addrs) = Result (Unit {0})
Answer (claiming code) = Unit
Answer (waiting id) = Wake
Answer (finding id) = Result (Unit {0})
Answer (asking id) = Result Envelope
Answer (handing id addrs) = Unit
Answer (erring reason) = Result (Unit {0})
Answer left = ⊥
Answer panicked = ⊥

-- One move of a handler: where it stands then, the shared state, and the messages that it has read
-- and sent.
pub record Turn : Type 0 where
  pub pc : Pc
  pub shared : Shared
  pub got : List Envelope
  pub sent : List Envelope

abbrev pub go : Pc → Shared → Turn
go pc sh = record { pc = pc; shared = sh; got = []; sent = [] }

abbrev pub heard : Result Envelope → Pc → Shared → Turn
heard (ok e) pc sh = record { pc = pc; shared = sh; got = e ∷ []; sent = [] }
heard (err e) pc sh = go pc sh

-- `client.Send`: on with `pc` if it succeeds, and with `pc'` on `sh'` otherwise.
abbrev pub send : Result (Unit {0}) → Envelope → Pc → Pc → Shared → Shared → Turn
send (ok _) e pc pc' sh sh' = record { pc = pc; shared = sh; got = []; sent = e ∷ [] }
send (err _) e pc pc' sh sh' = go pc' sh'

abbrev pub place : (ℕ → Object) → ℕ → Object → ℕ → Object
place heap id o j = if id == j then o else heap j

abbrev pub code_of : Shared → ℕ → Text
code_of sh id = (sh.heap id).session.code

-- `s.sessions.Claim(code)` by a sender's handler that gives up.
abbrev pub drop_code : ℕ → Shared → Shared
drop_code id sh = record sh { store = (claim (code_of sh id) sh.store).1 }

-- `readExpected` with `TypePeerAddrs`.
abbrev pub read_expected : Result Envelope → Result PeerAddrs
read_expected (ok (peer_addrs_env p)) = ok p
read_expected (ok (malformed peer_addrs)) = err (message "encoding/json")
read_expected (ok _) = err (message "unexpected message type")
read_expected (err e) = err e

abbrev pub created_env : Object → Envelope
created_env o = session_created_env (record { code = o.session.code; expires_in = pos session_ttl })

abbrev pub found_env : Object → Envelope
found_env o = session_found_env (record {
  filename = o.session.sender_hello.filename;
  size = o.session.sender_hello.size;
  sha256 = o.session.sender_hello.sha256;
  peer = o.sender_addrs;
})

module _ (quote : Text → Text) where
  -- The `switch` of `ServeHTTP`; `quote` is the verb `%q` of fmt.
  abbrev pub dispatch : Envelope → Pc
  dispatch (sender_hello_env hello) = coding hello code_collision_max_retries
  dispatch (malformed sender_hello) = erring (codes "invalid sender_hello payload")
  dispatch (receiver_hello_env hello) = claiming hello.code
  dispatch (malformed receiver_hello) = erring (codes "invalid receiver_hello payload")
  dispatch e = erring (codes "unexpected first message type " ++ quote (type_text (type_of e)))

  abbrev pub serve : Result Envelope → Pc
  serve (ok e) = dispatch e
  serve (err e) = left

-- The loop of codes behind a collision.
abbrev pub retry : SenderHello → ℕ → Pc
retry hello zero = erring (codes "code collision, please retry")
retry hello (suc tries) = coding hello (suc tries)

abbrev pub no_addrs : PeerAddrs
no_addrs = record { local_candidates = []; public = []; cert_fingerprint = [] }

abbrev pub new_object : Session → Object
new_object x = record {
  session = x;
  sender_addrs = no_addrs;
  sender_ready = false;
  receiver_joined = none;
}

abbrev pub created : SenderHello → ℕ → Option Session × SessionStore → Shared → Turn
created hello tries (some x, store) sh =
    go (announcing x.id) (record { store = store; heap = place sh.heap x.id (new_object x) })
created hello tries (none, store) sh = go (retry hello tries) (record sh { store = store })

-- One round of the loop of codes.
abbrev pub try_code : SenderHello → ℕ → ℕ → Result Text → Shared → Turn
try_code hello tries now (ok code) sh = created hello tries (create now code hello sh.store) sh
try_code hello tries now (err e) sh = go (erring (codes "failed to generate code")) sh

-- `close(sess.SenderReady)` panics on a channel that is closed.
abbrev pub publish : ℕ → PeerAddrs → Shared → Bool → Pc × Shared
publish id p sh true = (panicked, sh)
publish id p sh false = (
  parked id,
  record sh {
    heap = place sh.heap id (record (sh.heap id) { sender_addrs = p; sender_ready = true });
  },
)

abbrev pub address : Text → ℕ → Result PeerAddrs → Shared → Pc × Shared
address observed id (ok p) sh =
    publish id (record p { public = observed }) sh (sh.heap id).sender_ready
address observed id (err e) sh = (left, drop_code id sh)

abbrev pub take_joined : ℕ → Option PeerAddrs → Shared → Turn
take_joined id none sh = go (parked id) sh
take_joined id (some p) sh =
    go (forwarding id p)
      (record sh { heap = place sh.heap id (record (sh.heap id) { receiver_joined = none }) })

-- The `select` of a parked sender; a channel with nothing in it does not wake it.
abbrev pub wake_sender : ℕ → Wake → Shared → Turn
wake_sender id channel sh = take_joined id (sh.heap id).receiver_joined sh
wake_sender id done sh = go left (drop_code id sh)

abbrev pub claimed : Option Session × SessionStore → Shared → Turn
claimed (none, store) sh =
    go (erring (codes "code not found or already claimed")) (record sh { store = store })
claimed (some x, store) sh = go (waiting x.id) (record sh { store = store })

abbrev pub wake_receiver : ℕ → Wake → Bool → Shared → Turn
wake_receiver id channel true sh = go (finding id) sh
wake_receiver id channel false sh = go (waiting id) sh
wake_receiver id done _ sh = go (erring (codes "sender did not provide addresses in time")) sh

abbrev pub ask : Text → ℕ → Result PeerAddrs → Pc
ask observed id (ok p) = handing id (record p { public = observed })
ask observed id (err e) = left

-- The hand-off: a full channel drops the addresses.
abbrev pub offer : ℕ → PeerAddrs → Option PeerAddrs → Shared → Shared
offer id p none sh = record sh {
  heap = place sh.heap id (record (sh.heap id) { receiver_joined = some p });
}
offer id p (some _) sh = sh

-- One move of the handler of a connection that the relay sees at `observed`.
unfoldable pub act : (Text → Text) → Text → (pc : Pc) → Answer pc → Shared → Turn
act quote observed fresh r sh = heard r (serve quote r) sh
act quote observed (coding hello zero) d sh = go (retry hello zero) sh
act quote observed (coding hello (suc tries)) d sh =
    try_code hello tries d.now (generate_code d.first d.second d.third) sh
act quote observed (announcing id) r sh =
    send r (created_env (sh.heap id)) (addressing id) left sh (drop_code id sh)
act quote observed (addressing id) r sh =
    let next = address observed id (read_expected r) sh in heard r next.0 next.1
act quote observed (parked id) w sh = wake_sender id w sh
act quote observed (forwarding id p) r sh =
    send r (receiver_joined_env (record { peer = p })) left left sh sh
act quote observed (claiming code) _ sh = claimed (claim code sh.store) sh
act quote observed (waiting id) w sh = wake_receiver id w (sh.heap id).sender_ready sh
act quote observed (finding id) r sh = send r (found_env (sh.heap id)) (asking id) left sh sh
act quote observed (asking id) r sh = heard r (ask observed id (read_expected r)) sh
act quote observed (handing id p) _ sh = go left (offer id p (sh.heap id).receiver_joined sh)
act quote observed (erring reason) r sh =
    send r (session_error_env (record { reason = reason })) left left sh sh
act quote observed left a sh = absurd a
act quote observed panicked a sh = absurd a

-- One connection: its handler, and the messages that went each way.
pub record Client : Type 0 where
  pub pc : Pc
  pub got : List Envelope
  pub sent : List Envelope

pub record Relay : Type 0 where
  pub shared : Shared
  pub clients : ℕ → Client

abbrev pub moved : Client → Turn → Client
moved c t = record { pc = t.pc; got = c.got ++ t.got; sent = c.sent ++ t.sent }

abbrev pub after : ℕ → Turn → Relay → Relay
after i t s = record {
  shared = t.shared;
  clients = λ j. if i == j then moved (s.clients i) t else s.clients j;
}

-- The relay sees connection `i` at `addr i`. The handlers and the reaper take turns in any order.
pub data Step (quote : Text → Text) (addr : ℕ → Text) (s : Relay) : Relay → Type 0 where
  turn :
      (i : ℕ) (a : Answer (s.clients i).pc)
      → Step quote addr s (after i (act quote (addr i) (s.clients i).pc a s.shared) s)
  sweep :
      (now : ℕ)
      → Step quote addr s
          (record s { shared = record s.shared { store = reap now s.shared.store } })

-- `NewServer`: no connection has said anything, and no pointer has been given out.
abbrev pub new_server : (ℕ → Object) → Relay
new_server heap = record {
  shared = record { store = new_session_store; heap = heap };
  clients = λ i. record { pc = fresh; got = []; sent = [] };
}

pub data Reach (quote : Text → Text) (addr : ℕ → Text) (heap : ℕ → Object) : Relay → Type 0 where
  start : Reach quote addr heap (new_server heap)
  next : {s t : Relay} → Reach quote addr heap s → Step quote addr s t → Reach quote addr heap t
