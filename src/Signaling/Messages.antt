-- ===== src/Signaling/Messages.antt =====
-- internal/signaling/messages.go and types.go: the messages, one constructor for each type.
use p2pft.Prelude.{ℤ, List, Text, codes}

pub record SenderHello : Type 0 where
  pub filename : Text
  pub size : ℤ
  pub sha256 : Text

pub record PeerAddrs : Type 0 where
  pub local_candidates : List Text
  pub public : Text
  pub cert_fingerprint : Text

pub record SessionCreated : Type 0 where
  pub code : Text
  pub expires_in : ℤ

pub record ReceiverJoined : Type 0 where
  pub peer : PeerAddrs

pub record ReceiverHello : Type 0 where
  pub code : Text

pub record SessionFound : Type 0 where
  pub filename : Text
  pub size : ℤ
  pub sha256 : Text
  pub peer : PeerAddrs

pub record SessionError : Type 0 where
  pub reason : Text

-- An `Envelope` whose payload decodes at the type that `Type` names. `malformed` is one whose
-- payload does not, and `unknown` one with another type.
pub data MessageType : Type 0 where
  sender_hello receiver_hello peer_addrs session_created session_found receiver_joined : MessageType
  session_error : MessageType
  unknown : Text → MessageType

pub data Envelope : Type 0 where
  sender_hello_env : SenderHello → Envelope
  receiver_hello_env : ReceiverHello → Envelope
  peer_addrs_env : PeerAddrs → Envelope
  session_created_env : SessionCreated → Envelope
  session_found_env : SessionFound → Envelope
  receiver_joined_env : ReceiverJoined → Envelope
  session_error_env : SessionError → Envelope
  malformed : MessageType → Envelope

abbrev pub type_of : Envelope → MessageType
type_of (sender_hello_env _) = sender_hello
type_of (receiver_hello_env _) = receiver_hello
type_of (peer_addrs_env _) = peer_addrs
type_of (session_created_env _) = session_created
type_of (session_found_env _) = session_found
type_of (receiver_joined_env _) = receiver_joined
type_of (session_error_env _) = session_error
type_of (malformed t) = t

-- The constants of types.go.
abbrev pub type_text : MessageType → Text
type_text sender_hello = codes "sender_hello"
type_text receiver_hello = codes "receiver_hello"
type_text peer_addrs = codes "peer_addrs"
type_text session_created = codes "session_created"
type_text session_found = codes "session_found"
type_text receiver_joined = codes "receiver_joined"
type_text session_error = codes "session_error"
type_text (unknown t) = t
