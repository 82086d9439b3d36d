-- ===== src/Signaling/Wire/RoundTrip.antt =====
-- A message is read as it was sent.
use p2pft.Prelude.{
  ◌≡◌, refl, ℤ, pos, negsuc, IsInt64, Bool, true, some, List, [], ◌∷◌, All, Text, arith,
}
use p2pft.Io.Result.{ok}
use p2pft.Signaling.Messages.{
  PeerAddrs, Envelope, sender_hello_env, receiver_hello_env, peer_addrs_env, session_created_env,
  session_found_env, receiver_joined_env, session_error_env, malformed,
}
use p2pft.Signaling.Wire.{Json, items, strings, json_peer_addrs, wire}
use p2pft.Signaling.Wire.Utf8.{IsUtf8, to_utf8-IsUtf8}
use p2pft.Signaling.Wire.Unmarshal.{
  fits, set_strings, get_items, into, decode, peer_addrs_fields, no_addrs, unwire,
}

fits_int64 : (z : ℤ) → IsInt64 z → fits z ≡ true
fits_int64 (pos n) h = ground (arith, h)
fits_int64 (negsuc n) h = ground (arith, h)

get_items-items : (ts : List Text) → All IsUtf8 ts → get_items (items ts) ≡ ok ts
get_items-items [] h = refl
get_items-items (t ∷ ts) (u, h) = rw (get_items-items ts h, to_utf8-IsUtf8 t u) refl

set_strings-strings : (ts old : List Text) → All IsUtf8 ts → set_strings (strings ts) old ≡ ok ts
set_strings-strings [] old h = refl
set_strings-strings (t ∷ ts) old (u, h) = rw (get_items-items ts h, to_utf8-IsUtf8 t u) refl

abbrev HasUtf8 : PeerAddrs → Type 0
HasUtf8 p = All IsUtf8 p.local_candidates × IsUtf8 p.public × IsUtf8 p.cert_fingerprint

-- A message of the program whose numbers fit Go's int64 and whose strings are UTF-8.
abbrev pub IsSendable : Envelope → Type 0
IsSendable (sender_hello_env m) = IsInt64 m.size × IsUtf8 m.filename × IsUtf8 m.sha256
IsSendable (receiver_hello_env m) = IsUtf8 m.code
IsSendable (peer_addrs_env m) = HasUtf8 m
IsSendable (session_created_env m) = IsInt64 m.expires_in × IsUtf8 m.code
IsSendable (session_found_env m) =
    IsInt64 m.size × IsUtf8 m.filename × IsUtf8 m.sha256 × HasUtf8 m.peer
IsSendable (receiver_joined_env m) = HasUtf8 m.peer
IsSendable (session_error_env m) = IsUtf8 m.reason
IsSendable (malformed t) = ⊥

module _ (fold : Text → Text → Bool) where
  decode-json_peer_addrs :
      (p old : PeerAddrs) → HasUtf8 p → decode fold peer_addrs_fields (json_peer_addrs p) old ≡ ok p
  unfolding into
  decode-json_peer_addrs p old (cs, public, print) =
      rw
        (
          set_strings-strings p.local_candidates old.local_candidates cs,
          to_utf8-IsUtf8 p.public public,
          to_utf8-IsUtf8 p.cert_fingerprint print,
        )
        refl

  -- Whatever way of comparing names up to case the reader has, `Send` puts a message of the program
  -- whose strings are UTF-8 and whose numbers are int64 values on the wire, and `Read` and
  -- `DecodePayload` make that message of it, at its own type.
  pub unwire-wire :
      (e : Envelope) → IsSendable e → (j : Json) × (wire e ≡ some j) × (unwire fold j ≡ ok e)
  unfolding wire unwire into
  unwire-wire (sender_hello_env m) (n, name, hash) = (
    _,
    refl,
    rw (fits_int64 m.size n, to_utf8-IsUtf8 m.filename name, to_utf8-IsUtf8 m.sha256 hash) refl,
  )
  unwire-wire (receiver_hello_env m) h = (_, refl, rw (to_utf8-IsUtf8 m.code h) refl)
  unwire-wire (peer_addrs_env m) h = (_, refl, rw (decode-json_peer_addrs m no_addrs h) refl)
  unwire-wire (session_created_env m) (n, code) =
      (_, refl, rw (fits_int64 m.expires_in n, to_utf8-IsUtf8 m.code code) refl)
  unwire-wire (session_found_env m) (n, name, hash, peer) = (
    _,
    refl,
    rw
        (
          fits_int64 m.size n,
          to_utf8-IsUtf8 m.filename name,
          to_utf8-IsUtf8 m.sha256 hash,
          decode-json_peer_addrs m.peer no_addrs peer,
        )
        refl,
  )
  unwire-wire (receiver_joined_env m) h =
      (_, refl, rw (decode-json_peer_addrs m.peer no_addrs h) refl)
  unwire-wire (session_error_env m) h = (_, refl, rw (to_utf8-IsUtf8 m.reason h) refl)
  unwire-wire (malformed t) h = elim h [ ]
