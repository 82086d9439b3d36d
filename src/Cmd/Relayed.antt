-- ===== src/Cmd/Relayed.antt =====
-- cmd/p2pft/send.go and receive.go: the messages that the commands read from the relay.
pub mod Sound
use p2pft.Prelude.{◌≡◌, refl, ap, ◌∙◌, arith}
use p2pft.Io.Result.{Error, Result, ok, err, message, wrap}
use p2pft.Io.Exec.{Exec, lift, annotate, ◌>>=◌}
use p2pft.Signaling.Messages.{
  SessionCreated, SessionFound, ReceiverJoined, MessageType, session_created, session_found,
  receiver_joined, session_error, Envelope, session_created_env, session_found_env,
  receiver_joined_env, session_error_env, malformed,
}
use p2pft.Signaling.Client.{Socket, read, next_read}

-- `decodeRelayError`, on an envelope whose type is that of an error; the reason is the relay's.
abbrev pub decode_relay_error : Envelope → Error
decode_relay_error (session_error_env e) = message "relay"
decode_relay_error _ = wrap "relay error (could not decode reason)" (message "encoding/json")

abbrev pub unexpected : Error
unexpected = message "relay sent unexpected message type"

abbrev pub not_decoded : Error
not_decoded = message "encoding/json"

abbrev pub as_session_created : Envelope → Result SessionCreated
as_session_created (session_created_env m) = ok m
as_session_created (malformed session_created) = err (wrap "decode session_created" not_decoded)
as_session_created (session_error_env e) = err (decode_relay_error (session_error_env e))
as_session_created (malformed session_error) = err (decode_relay_error (malformed session_error))
as_session_created _ = err unexpected

-- `readSessionCreated`
unfoldable pub read_session_created : Exec Socket SessionCreated
read_session_created = do e ← annotate "read session_created" read; lift (as_session_created e)

abbrev pub as_session_found : Envelope → Result SessionFound
as_session_found (session_found_env m) = ok m
as_session_found (malformed session_found) = err (wrap "decode session_found" not_decoded)
as_session_found (session_error_env e) = err (decode_relay_error (session_error_env e))
as_session_found (malformed session_error) = err (decode_relay_error (malformed session_error))
as_session_found _ = err unexpected

-- `readSessionFound`
unfoldable pub read_session_found : Exec Socket SessionFound
read_session_found = do e ← annotate "read session_found" read; lift (as_session_found e)

abbrev pub as_receiver_joined : Envelope → Result ReceiverJoined
as_receiver_joined (receiver_joined_env m) = ok m
as_receiver_joined (malformed receiver_joined) = err (wrap "decode receiver_joined" not_decoded)
as_receiver_joined (session_error_env e) = err (decode_relay_error (session_error_env e))
as_receiver_joined (malformed session_error) = err (decode_relay_error (malformed session_error))
as_receiver_joined _ = err unexpected

-- `readReceiverJoined`
unfoldable pub read_receiver_joined : Exec Socket ReceiverJoined
read_receiver_joined = do e ← annotate "read receiver_joined" read; lift (as_receiver_joined e)
