-- ===== src/Cmd/Relayed/Sound.antt =====
-- What the commands take for a message of the relay is one.
use p2pft.Prelude.{String, ◌≡◌, refl, ap, ◌∙◌, arith}
use p2pft.Io.Result.{Result, ok, err}
use p2pft.Io.Exec.{Exec, lift, annotate, ◌>>=◌}
use p2pft.Signaling.Messages.{
  SessionCreated, SessionFound, ReceiverJoined, MessageType, session_created, session_found,
  receiver_joined, session_error, Envelope, session_created_env, session_found_env,
  receiver_joined_env, session_error_env, malformed,
}
use p2pft.Signaling.Client.{Socket, read, next_read, later_reads}
use p2pft.Cmd.Relayed.{
  as_session_created, as_session_found, as_receiver_joined, read_session_created,
  read_session_found, read_receiver_joined,
}

as_session_created_sound :
    (e : Envelope) (m : SessionCreated) → as_session_created e ≡ ok m → e ≡ session_created_env m
as_session_created_sound (Envelope.sender_hello_env x) m h = cc h
as_session_created_sound (Envelope.receiver_hello_env x) m h = cc h
as_session_created_sound (Envelope.peer_addrs_env x) m h = cc h
as_session_created_sound (session_created_env x) m h = ap session_created_env (cc h)
as_session_created_sound (session_found_env x) m h = cc h
as_session_created_sound (receiver_joined_env x) m h = cc h
as_session_created_sound (session_error_env x) m h = cc h
as_session_created_sound (malformed MessageType.sender_hello) m h = cc h
as_session_created_sound (malformed MessageType.receiver_hello) m h = cc h
as_session_created_sound (malformed MessageType.peer_addrs) m h = cc h
as_session_created_sound (malformed session_created) m h = cc h
as_session_created_sound (malformed session_found) m h = cc h
as_session_created_sound (malformed receiver_joined) m h = cc h
as_session_created_sound (malformed session_error) m h = cc h
as_session_created_sound (malformed (MessageType.unknown t)) m h = cc h

as_session_found_sound :
    (e : Envelope) (m : SessionFound) → as_session_found e ≡ ok m → e ≡ session_found_env m
as_session_found_sound (Envelope.sender_hello_env x) m h = cc h
as_session_found_sound (Envelope.receiver_hello_env x) m h = cc h
as_session_found_sound (Envelope.peer_addrs_env x) m h = cc h
as_session_found_sound (session_created_env x) m h = cc h
as_session_found_sound (session_found_env x) m h = ap session_found_env (cc h)
as_session_found_sound (receiver_joined_env x) m h = cc h
as_session_found_sound (session_error_env x) m h = cc h
as_session_found_sound (malformed MessageType.sender_hello) m h = cc h
as_session_found_sound (malformed MessageType.receiver_hello) m h = cc h
as_session_found_sound (malformed MessageType.peer_addrs) m h = cc h
as_session_found_sound (malformed session_created) m h = cc h
as_session_found_sound (malformed session_found) m h = cc h
as_session_found_sound (malformed receiver_joined) m h = cc h
as_session_found_sound (malformed session_error) m h = cc h
as_session_found_sound (malformed (MessageType.unknown t)) m h = cc h

as_receiver_joined_sound :
    (e : Envelope) (m : ReceiverJoined) → as_receiver_joined e ≡ ok m → e ≡ receiver_joined_env m
as_receiver_joined_sound (Envelope.sender_hello_env x) m h = cc h
as_receiver_joined_sound (Envelope.receiver_hello_env x) m h = cc h
as_receiver_joined_sound (Envelope.peer_addrs_env x) m h = cc h
as_receiver_joined_sound (session_created_env x) m h = cc h
as_receiver_joined_sound (session_found_env x) m h = cc h
as_receiver_joined_sound (receiver_joined_env x) m h = ap receiver_joined_env (cc h)
as_receiver_joined_sound (session_error_env x) m h = cc h
as_receiver_joined_sound (malformed MessageType.sender_hello) m h = cc h
as_receiver_joined_sound (malformed MessageType.receiver_hello) m h = cc h
as_receiver_joined_sound (malformed MessageType.peer_addrs) m h = cc h
as_receiver_joined_sound (malformed session_created) m h = cc h
as_receiver_joined_sound (malformed session_found) m h = cc h
as_receiver_joined_sound (malformed receiver_joined) m h = cc h
as_receiver_joined_sound (malformed session_error) m h = cc h
as_receiver_joined_sound (malformed (MessageType.unknown t)) m h = cc h

-- What the three reads have in common.
module _ {A : Type 0} (f : Envelope → Result A) (msg : String) where
  read_as : Exec Socket A
  read_as = do e ← annotate msg read; lift (f e)

  read_as_sound :
      (s : Socket) (m : A)
      → (read_as s).0 ≡ ok m
      → (e : Envelope) × (next_read s.reads ≡ ok (ok e)) × (f e ≡ ok m)
  unfolding read_as read
  read_as_sound s m h = split (next_read s.reads) refl
    where
      split :
          (r : Result (Result Envelope))
          → next_read s.reads ≡ r
          → (e : Envelope) × (next_read s.reads ≡ ok (ok e)) × (f e ≡ ok m)
      split (ok (ok e)) same = (e, same, ground (arith, h, same))
      split (ok (err x)) same = absurd (ground (arith, h, same))
      split (err x) same = absurd (ground (arith, h, same))

  read_as-reads : (s : Socket) → (read_as s).1.reads ≡ later_reads s.reads
  unfolding read_as read
  read_as-reads s = split (next_read s.reads) refl
    where
      split :
          (r : Result (Result Envelope))
          → next_read s.reads ≡ r
          → (read_as s).1.reads ≡ later_reads s.reads
      split (ok (ok e)) same = rw same refl
      split (ok (err x)) same = rw same refl
      split (err x) same = rw same refl

-- A `SessionCreated` that has been read is the next message of the relay.
pub read_session_created_sound :
    (s : Socket) (m : SessionCreated)
    → (read_session_created s).0 ≡ ok m
    → next_read s.reads ≡ ok (ok (session_created_env m))
unfolding read_session_created read_as
read_session_created_sound s m h =
    let (e, arrived, decoded) = read_as_sound as_session_created "read session_created" s m h in
    arrived ∙ ap (λ x. ok (ok x)) (as_session_created_sound e m decoded)

-- A `SessionFound` that has been read is the next message of the relay.
pub read_session_found_sound :
    (s : Socket) (m : SessionFound)
    → (read_session_found s).0 ≡ ok m
    → next_read s.reads ≡ ok (ok (session_found_env m))
unfolding read_session_found read_as
read_session_found_sound s m h =
    let (e, arrived, decoded) = read_as_sound as_session_found "read session_found" s m h in
    arrived ∙ ap (λ x. ok (ok x)) (as_session_found_sound e m decoded)

-- A `ReceiverJoined` that has been read is the next message of the relay.
pub read_receiver_joined_sound :
    (s : Socket) (m : ReceiverJoined)
    → (read_receiver_joined s).0 ≡ ok m
    → next_read s.reads ≡ ok (ok (receiver_joined_env m))
unfolding read_receiver_joined read_as
read_receiver_joined_sound s m h =
    let (e, arrived, decoded) = read_as_sound as_receiver_joined "read receiver_joined" s m h in
    arrived ∙ ap (λ x. ok (ok x)) (as_receiver_joined_sound e m decoded)

pub read_session_created-reads :
    (s : Socket) → (read_session_created s).1.reads ≡ later_reads s.reads
unfolding read_session_created read_as
read_session_created-reads s = read_as-reads as_session_created "read session_created" s
