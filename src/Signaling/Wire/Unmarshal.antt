-- ===== src/Signaling/Wire/Unmarshal.antt =====
-- internal/signaling: what Unmarshal makes of any JSON value that claims to be a message.
use p2pft.Prelude.{
  ◌^◌, ℤ, pos, negsuc, Option, none, some, Bool, ltb, if◌then◌else◌, List, [], ◌∷◌, Text, codes,
  eqb_text,
}
use p2pft.Io.Result.{Error, Result, ok, err, message}
use p2pft.Signaling.Messages.{
  SenderHello, PeerAddrs, SessionCreated, ReceiverJoined, ReceiverHello, SessionFound, SessionError,
  MessageType, sender_hello, receiver_hello, peer_addrs, session_created, session_found,
  receiver_joined, session_error, unknown, Envelope, sender_hello_env, receiver_hello_env,
  peer_addrs_env, session_created_env, session_found_env, receiver_joined_env, session_error_env,
  malformed,
}
use p2pft.Signaling.Wire.{Json, null, int, str, arr, obj, Items, nil, cons, Members, end, member}

-- Unmarshal into a value that is there; `null` leaves it alone.
abbrev pub mismatch : Error
mismatch = message "json: cannot unmarshal"

abbrev pub set_text : Json → Text → Result Text
set_text null old = ok old
set_text (str t) old = ok t
set_text _ old = err mismatch

abbrev pub fits : ℤ → Bool
fits (pos n) = ltb n (2 ^ 63)
fits (negsuc n) = ltb n (2 ^ 63)

abbrev pub set_int64 : Json → ℤ → Result ℤ
set_int64 null old = ok old
set_int64 (int z) old = if fits z then ok z else err mismatch
set_int64 _ old = err mismatch

abbrev pub prepend : Result Text → Result (List Text) → Result (List Text)
prepend (ok t) (ok ts) = ok (t ∷ ts)
prepend (ok t) (err e) = err e
prepend (err e) rest = err e

abbrev pub get_items : Items → Result (List Text)
get_items nil = ok []
get_items (cons j js) = let rest = get_items js in prepend (set_text j []) rest

abbrev pub set_strings : Json → List Text → Result (List Text)
set_strings null old = ok []
set_strings (arr js) old = get_items js
set_strings _ old = err mismatch

abbrev pub then_put : {A B : Type 0} → Result B → (B → A) → Result A
then_put (ok b) put = ok (put b)
then_put (err e) put = err e

-- The fields of a struct: the name in the tag, and how a value is put into the field.
abbrev pub Fields : Type 0 → Type 0
Fields A = List (Text × (Json → A → Result A))

abbrev pub next_member : {A : Type 0} → Result A → (A → Result A) → Result A
next_member (ok a) rest = rest a
next_member (err e) rest = err e

abbrev pub exact : {A : Type 0} → Text → Fields A → Option (Json → A → Result A)
exact key [] = none
exact key ((name, set) ∷ fs) =
    let rest = exact key fs in if eqb_text name key then some set else rest

abbrev pub found_or :
    {A : Type 0} → Option (Json → A → Result A) → Option (Json → A → Result A) → Json → A → Result A
found_or (some set) other v a = set v a
found_or none (some set) v a = set v a
found_or none none v a = ok a

abbrev pub peer_addrs_fields : Fields PeerAddrs
peer_addrs_fields =
    (
      codes "local_candidates",
      λ v m. then_put (set_strings v m.local_candidates) (λ x. record m { local_candidates = x }),
    )
    ∷ (codes "public", λ v m. then_put (set_text v m.public) (λ x. record m { public = x }))
    ∷ (
      codes "cert_fingerprint",
      λ v m. then_put (set_text v m.cert_fingerprint) (λ x. record m { cert_fingerprint = x }),
    )
    ∷ []

abbrev pub sender_hello_fields : Fields SenderHello
sender_hello_fields =
    (codes "filename", λ v m. then_put (set_text v m.filename) (λ x. record m { filename = x }))
    ∷ (codes "size", λ v m. then_put (set_int64 v m.size) (λ x. record m { size = x }))
    ∷ (codes "sha256", λ v m. then_put (set_text v m.sha256) (λ x. record m { sha256 = x }))
    ∷ []

abbrev pub receiver_hello_fields : Fields ReceiverHello
receiver_hello_fields =
    (codes "code", λ v m. then_put (set_text v m.code) (λ x. record m { code = x })) ∷ []

abbrev pub session_created_fields : Fields SessionCreated
session_created_fields =
    (codes "code", λ v m. then_put (set_text v m.code) (λ x. record m { code = x }))
    ∷ (
      codes "expires_in",
      λ v m. then_put (set_int64 v m.expires_in) (λ x. record m { expires_in = x }),
    )
    ∷ []

abbrev pub session_error_fields : Fields SessionError
session_error_fields =
    (codes "reason", λ v m. then_put (set_text v m.reason) (λ x. record m { reason = x })) ∷ []

-- The `Envelope` of the source: `Payload` keeps its value, and is nil if there is none.
pub record RawEnvelope : Type 0 where
  pub kind : Text
  pub payload : Option Json

abbrev pub envelope_fields : Fields RawEnvelope
envelope_fields =
    (codes "type", λ v r. then_put (set_text v r.kind) (λ x. record r { kind = x }))
    ∷ (codes "payload", λ v r. ok (record r { payload = some v }))
    ∷ []

abbrev pub no_addrs : PeerAddrs
no_addrs = record { local_candidates = []; public = []; cert_fingerprint = [] }

abbrev pub message_type : Text → MessageType
message_type t =
    if eqb_text t (codes "sender_hello")
    then sender_hello
    else if eqb_text t (codes "receiver_hello")
    then receiver_hello
    else if eqb_text t (codes "peer_addrs")
    then peer_addrs
    else if eqb_text t (codes "session_created")
    then session_created
    else if eqb_text t (codes "session_found")
    then session_found
    else if eqb_text t (codes "receiver_joined")
    then receiver_joined
    else if eqb_text t (codes "session_error")
    then session_error
    else unknown t

abbrev pub decoded_as : {A : Type 0} → MessageType → (A → Envelope) → Result A → Envelope
decoded_as t env (ok m) = env m
decoded_as t env (err e) = malformed t

-- `fold` is the comparison of names up to case, which serves where no field has the very name.
module _ (fold : Text → Text → Bool) where
  abbrev pub folded : {A : Type 0} → Text → Fields A → Option (Json → A → Result A)
  folded key [] = none
  folded key ((name, set) ∷ fs) =
      let rest = folded key fs in if fold name key then some set else rest

  -- The members of an object in their order; one that no field has is skipped.
  unfoldable pub into : {A : Type 0} → Fields A → Members → A → Result A
  into fs end a = ok a
  into fs (member key v ms) a =
      next_member (found_or (exact key fs) (folded key fs) v a) (into fs ms)

  abbrev pub decode : {A : Type 0} → Fields A → Json → A → Result A
  decode fs null a = ok a
  decode fs (obj ms) a = into fs ms a
  decode fs _ a = err mismatch

  abbrev pub receiver_joined_fields : Fields ReceiverJoined
  receiver_joined_fields =
      (
        codes "peer",
        λ v m. then_put (decode peer_addrs_fields v m.peer) (λ x. record m { peer = x }),
      )
      ∷ []

  abbrev pub session_found_fields : Fields SessionFound
  session_found_fields =
      (codes "filename", λ v m. then_put (set_text v m.filename) (λ x. record m { filename = x }))
      ∷ (codes "size", λ v m. then_put (set_int64 v m.size) (λ x. record m { size = x }))
      ∷ (codes "sha256", λ v m. then_put (set_text v m.sha256) (λ x. record m { sha256 = x }))
      ∷ (
        codes "peer",
        λ v m. then_put (decode peer_addrs_fields v m.peer) (λ x. record m { peer = x }),
      )
      ∷ []

  -- `DecodePayload` into a zero value; no payload at all is a text that ends too early.
  abbrev pub decode_payload : {A : Type 0} → Fields A → A → Option Json → Result A
  decode_payload fs zero none = err mismatch
  decode_payload fs zero (some v) = decode fs v zero

  -- The payload at the type that `Type` names.
  abbrev pub payload_as : MessageType → Option Json → Envelope
  payload_as sender_hello p =
      decoded_as sender_hello sender_hello_env
        (decode_payload sender_hello_fields (record { filename = []; size = pos 0; sha256 = [] }) p)
  payload_as receiver_hello p =
      decoded_as receiver_hello receiver_hello_env
        (decode_payload receiver_hello_fields (record { code = [] }) p)
  payload_as peer_addrs p =
      decoded_as peer_addrs peer_addrs_env (decode_payload peer_addrs_fields no_addrs p)
  payload_as session_created p =
      decoded_as session_created session_created_env
        (decode_payload session_created_fields (record { code = []; expires_in = pos 0 }) p)
  payload_as session_found p = decoded_as session_found session_found_env (
      decode_payload session_found_fields
        (record { filename = []; size = pos 0; sha256 = []; peer = no_addrs }) p)
  payload_as receiver_joined p =
      decoded_as receiver_joined receiver_joined_env
        (decode_payload receiver_joined_fields (record { peer = no_addrs }) p)
  payload_as session_error p =
      decoded_as session_error session_error_env
        (decode_payload session_error_fields (record { reason = [] }) p)
  payload_as (unknown t) p = malformed (unknown t)

  abbrev pub of_raw : RawEnvelope → Envelope
  of_raw r = payload_as (message_type r.kind) r.payload

  -- What `Client.Read` makes of a JSON value.
  unfoldable pub unwire : Json → Result Envelope
  unfolding into
  unwire v = then_put (decode envelope_fields v (record { kind = []; payload = none })) of_raw
