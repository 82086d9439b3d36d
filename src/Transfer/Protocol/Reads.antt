-- ===== src/Transfer/Protocol/Reads.antt =====
-- Frames and JSON frames only take bytes off the stream.
use p2pft.Prelude.{ℕ, Bytes}
use p2pft.Io.Exec.Keeps.{Keeps, keeps_rules}
use p2pft.Io.Conn.Reads.{From, read_full-Keeps, write-Keeps}
use p2pft.Transfer.Framing.{frame_body, read_frame, write_frame}
use p2pft.Transfer.Protocol.{Codec, read_json_frame, write_json_frame}

module _ (all : Bytes) where
  frame_body-Keeps : (size n : ℕ) → Keeps (From all) (frame_body size n)
  frame_body-Keeps size n = search (keeps_rules, read_full-Keeps) depth 7

  pub read_frame-Keeps : (size : ℕ) → Keeps (From all) (read_frame size)
  unfolding read_frame
  read_frame-Keeps size = search (keeps_rules, read_full-Keeps, frame_body-Keeps)

  write_frame-Keeps : (b : Bytes) → Keeps (From all) (write_frame b)
  unfolding write_frame
  write_frame-Keeps b = search (keeps_rules, write-Keeps) depth 7

  module _ {A : Type 0} {P : A → Type 0} (codec : Codec A P) where
    pub read_json_frame-Keeps : Keeps (From all) (read_json_frame codec)
    unfolding read_json_frame
    read_json_frame-Keeps = search (keeps_rules, read_frame-Keeps)

    pub write_json_frame-Keeps : (v : A) → Keeps (From all) (write_json_frame codec v)
    unfolding write_json_frame
    write_json_frame-Keeps v = search write_frame-Keeps
