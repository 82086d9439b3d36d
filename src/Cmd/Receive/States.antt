-- ===== src/Cmd/Receive/States.antt =====
-- What has been done and found out at the points of `runReceive`.
use p2pft.Prelude.{◌≡◌, ◌≢◌, ◌∙◌, ◌⊎◌, inl, inr, true, [], ◌∷◌, Bytes, Text, arith, Bool-cases}
use p2pft.Io.Result.{ok}
use p2pft.Io.Exec.{Exec}
use p2pft.Io.Exec.Keeps.{Keeps, keeps_rules}
use p2pft.Io.Conn.{Conn}
use p2pft.Signaling.Messages.{SessionFound, Envelope, session_found_env}
use p2pft.Signaling.Client.{Socket, send, next_read}
use p2pft.Signaling.Client.Sent.{send-reads}
use p2pft.Pairing.{Listener, accept_with_code}
use p2pft.Transfer.Protocol.{Formats}
use p2pft.Transfer.Resume.{partial_path, meta_path}
use p2pft.Tlsx.{Chain, fingerprint}
use p2pft.Cmd.World.{Names, Flags, Machine, World, on_socket, on_listener, prompt_yn}
use p2pft.Cmd.Receive.{ask_user, dest_of}

module _ (formats : Formats) (names : Names) (flags : Flags) (m : Machine) (w₀ : World) where
  -- The disk is that of the start.
  pub record Untouched (w : World) : Type 0 where
    pub disk : w.peer.disk ≡ w₀.peer.disk

  -- Nor has a connection been accepted.
  pub record Before (w : World) : Type 0 where
    pub disk : w.peer.disk ≡ w₀.peer.disk
    pub listener : w.listener ≡ w₀.listener

  -- Nor has the relay been read.
  pub record Unread (w : World) : Type 0 where
    pub disk : w.peer.disk ≡ w₀.peer.disk
    pub listener : w.listener ≡ w₀.listener
    pub reads : w.socket.reads ≡ w₀.socket.reads

  pub before : (w : World) → Unread w → Before w
  before w h = record { disk = h.disk; listener = h.listener }

  pub untouched : (w : World) → Before w → Untouched w
  untouched w h = record { disk = h.disk }

  -- What has been found out before the transfer: the relay's message with a fingerprint, the
  -- user's consent, a connection that named the code, and a peer with this fingerprint.
  pub record Agreed (code : Text) (w : World) : Type 0 where
    pub found : SessionFound
    pub relayed : next_read w₀.socket.reads ≡ ok (ok (session_found_env found))
    pub fingerprinted : found.peer.cert_fingerprint ≢ []
    pub consent : (flags.auto_accept ≡ true) ⊎ (prompt_yn names m.line ≡ true)
    pub conn : Conn
    pub named : (accept_with_code code w₀.listener).0 ≡ ok conn
    pub leaf : Bytes
    pub rest : Chain
    pub presented : m.tls.presented ≡ ok (leaf ∷ rest)
    pub pinned : fingerprint formats.digest leaf ≡ found.peer.cert_fingerprint
    -- Only the file, its partial file and its sidecar may have changed.
    pub others :
        (q : Text)
        → dest_of names flags found ≢ q
        → partial_path (dest_of names flags found) ≢ q
        → meta_path (dest_of names flags found) ≢ q
        → w.peer.disk.files q ≡ w₀.peer.disk.files q

  pub on_socket-Before : {A : Type 0} (n : Exec Socket A) → Keeps Before (on_socket n)
  on_socket-Before n = record { at = λ w h. record { disk = h.disk; listener = h.listener } }

  pub send-Unread : (e : Envelope) → Keeps Unread (on_socket (send e))
  send-Unread e = record {
    at = λ w h. record {
      disk = h.disk;
      listener = h.listener;
      reads = send-reads e w.socket ∙ h.reads;
    };
  }

  pub on_listener-Keeps : {A : Type 0} (n : Exec Listener A) → Keeps Untouched (on_listener n)
  on_listener-Keeps n = record { at = λ w h. record { disk = h.disk } }

  pub ask_consent :
      (w : World)
      → (ask_user formats names flags m w).0 ≡ ok tt
      → (flags.auto_accept ≡ true) ⊎ (prompt_yn names m.line ≡ true)
  ask_consent w h = elim (Bool-cases flags.auto_accept) [
    | inl auto ↦ inl auto
    | inr by_hand ↦ inr (ground (arith, h, by_hand))
  ]

  pub ask_user-Keeps : Keeps Before (ask_user formats names flags m)
  ask_user-Keeps = search keeps_rules
