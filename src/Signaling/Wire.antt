-- ===== src/Signaling/Wire.antt =====
-- internal/signaling: the JSON values of the messages, as the struct tags of messages.go say. The text of a value is that of encoding/json.
pub mod Utf8
pub mod Unmarshal
pub mod RoundTrip
use p2pft.Prelude.{
  ℕ, ◌^◌, ℤ, pos, negsuc, Option, none, some, Bool, true, false, ltb, if◌then◌else◌, List, [], ◌∷◌,
  Text, codes, eqb_text,
}
use p2pft.Io.Result.{Error, Result, ok, err, message, wrap}
use p2pft.Signaling.Messages.{
  SenderHello, PeerAddrs, SessionCreated, ReceiverJoined, ReceiverHello, SessionFound, SessionError,
  MessageType, sender_hello, receiver_hello, peer_addrs, session_created, session_found,
  receiver_joined, session_error, unknown, Envelope, sender_hello_env, receiver_hello_env,
  peer_addrs_env, session_created_env, session_found_env, receiver_joined_env, session_error_env,
  malformed, type_of, type_text,
}
use p2pft.Signaling.Wire.Utf8.{to_utf8}

-- `int` is a number without fraction and exponent, `decimal` any other.
mutual
  pub data Json : Type 0 where
    null : Json
    boolean : Bool → Json
    int : ℤ → Json
    decimal : Text → Json
    str : Text → Json
    arr : Items → Json
    obj : Members → Json

  pub data Items : Type 0 where
    nil : Items
    cons : Json → Items → Items

  pub data Members : Type 0 where
    end : Members
    member : Text → Json → Members → Members

-- A Go string; Marshal replaces what is not UTF-8 in it.
abbrev pub string : Text → Json
string t = str (to_utf8 t)

-- A slice of strings; a nil slice is `null`, and so is an empty one here, which the reader cannot
-- tell from it.
abbrev pub items : List Text → Items
items [] = nil
items (t ∷ ts) = cons (string t) (items ts)

abbrev pub strings : List Text → Json
strings [] = null
strings (t ∷ ts) = arr (items (t ∷ ts))

-- The values that Marshal writes.
abbrev pub json_peer_addrs : PeerAddrs → Json
json_peer_addrs p = obj (
    member (codes "local_candidates") (strings p.local_candidates) (
      member (codes "public") (string p.public)
        (member (codes "cert_fingerprint") (string p.cert_fingerprint) end)))

abbrev pub payload_of : Envelope → Option Json
payload_of (sender_hello_env m) = some (
    obj (
      member (codes "filename") (string m.filename)
        (member (codes "size") (int m.size) (member (codes "sha256") (string m.sha256) end))))
payload_of (receiver_hello_env m) = some (obj (member (codes "code") (string m.code) end))
payload_of (peer_addrs_env m) = some (json_peer_addrs m)
payload_of (session_created_env m) = some (
    obj
      (member (codes "code") (string m.code) (member (codes "expires_in") (int m.expires_in) end)))
payload_of (session_found_env m) = some (
    obj (
      member (codes "filename") (string m.filename) (
        member (codes "size") (int m.size) (
          member (codes "sha256") (string m.sha256)
            (member (codes "peer") (json_peer_addrs m.peer) end)))))
payload_of (receiver_joined_env m) = some (obj (member (codes "peer") (json_peer_addrs m.peer) end))
payload_of (session_error_env m) = some (obj (member (codes "reason") (string m.reason) end))
payload_of (malformed t) = none

-- The type and the names are ASCII.
abbrev pub enclose : Text → Option Json → Option Json
enclose t none = none
enclose t (some payload) =
    some (obj (member (codes "type") (str t) (member (codes "payload") payload end)))

-- What `Client.Send` writes; the program sends no malformed message.
unfoldable pub wire : Envelope → Option Json
wire e = enclose (type_text (type_of e)) (payload_of e)
