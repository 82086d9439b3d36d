-- ===== src/Transfer/Protocol.antt =====
-- internal/transfer/protocol.go, and the JSON frames of internal/transfer/sender.go.
pub mod Json
pub mod Reads
pub mod Ends
use p2pft.Prelude.{◌≤◌, ◌<◌, ◌≡◌, ℤ, IsInt64, Option, none, some, length, Bytes, Text, All, IsByte}
use p2pft.Io.Result.{Error, Result, ok, err, eof, message, wrap}
use p2pft.Io.Exec.{Exec, lift, attempt, ◌>>=◌}
use p2pft.Io.Conn.{Conn}
use p2pft.Transfer.Framing.{hash_size, max_frame_size, write_frame, read_frame}

pub record ResumeRequest : Type 0 where
  pub offset : ℤ

pub record TransferStart : Type 0 where
  pub start_offset : ℤ

-- The sidecar beside a partial file.
pub record PartialMeta : Type 0 where
  pub size : ℤ
  pub sha256 : Text

-- `json.Marshal` and `json.Unmarshal` at the type `A`, with the values `P` that survive both.
pub record Codec (A : Type 0) (P : A → Type 0) : Type 0 where
  pub marshal : A → Bytes
  pub unmarshal : Bytes → Option A
  pub round_trip : (a : A) → P a → unmarshal (marshal a) ≡ some a

-- SHA-256
pub record Digest : Type 0 where
  pub sum : Bytes → Bytes
  pub sum_length : (b : Bytes) → length (sum b) ≡ hash_size
  pub sum_bytes : (b : Bytes) → All IsByte (sum b)

abbrev pub IsRequest : ResumeRequest → Type 0
IsRequest r = IsInt64 r.offset

abbrev pub IsStart : TransferStart → Type 0
IsStart r = IsInt64 r.start_offset

-- JSON keeps ASCII strings.
abbrev pub IsMeta : PartialMeta → Type 0
IsMeta m = IsInt64 m.size × All (λ c. c < 128) m.sha256

-- What the transfer takes from `encoding/json` and `crypto/sha256`. A message that holds one
-- number is not empty and far shorter than a frame may be.
pub record Formats : Type 0 where
  pub digest : Digest
  pub request : Codec ResumeRequest IsRequest
  pub start : Codec TransferStart IsStart
  pub partial_meta : Codec PartialMeta IsMeta
  pub request_size :
      (r : ResumeRequest)
      → IsRequest r
      → (0 < length (request.marshal r)) × (length (request.marshal r) ≤ max_frame_size)
  pub start_size :
      (r : TransferStart)
      → IsStart r
      → (0 < length (start.marshal r)) × (length (start.marshal r) ≤ max_frame_size)

module _ {A : Type 0} {P : A → Type 0} (codec : Codec A P) where
  -- Neither message type can fail to marshal.
  unfoldable pub write_json_frame : A → Exec Conn (Unit {0})
  write_json_frame v = write_frame (codec.marshal v)

  abbrev pub decoded : Option A → Result A
  decoded none = err (wrap "unmarshal JSON frame" (message "encoding/json"))
  decoded (some v) = ok v

  -- `err == io.EOF` compares with the bare error: a wrapped one passes on as it is.
  abbrev pub json_of_frame : Result Bytes → Result A
  json_of_frame (ok b) = decoded (codec.unmarshal b)
  json_of_frame (err eof) = err (message "unexpected EOS during JSON handshake")
  json_of_frame (err e) = err e

  -- The buffer has `max_frame_size` bytes.
  unfoldable pub read_json_frame : Exec Conn A
  read_json_frame = do r ← attempt (read_frame max_frame_size); lift (json_of_frame r)
