-- ===== src/Transfer/Protocol/Json.antt =====
-- JSON frames that are written and read back.
use p2pft.Prelude.{◌<◌, ◌≤◌, ◌≡◌, ◌++◌, none, length, Bytes, arith}
use p2pft.Io.Result.{ok}
use p2pft.Io.Conn.{Conn}
use p2pft.Transfer.Framing.{max_frame_size}
use p2pft.Transfer.Framing.RoundTrip.{frame, write_frame-ok, read_frame-ok}
use p2pft.Transfer.Protocol.{Codec, write_json_frame, read_json_frame}

module _ {A : Type 0} {P : A → Type 0} (codec : Codec A P) (v : A) where
  pub write_json_frame-ok :
      (c : Conn)
      → c.room ≡ none
      → length (codec.marshal v) ≤ max_frame_size
      → write_json_frame codec v c
        ≡ (ok tt, record c { outgoing = c.outgoing ++ frame (codec.marshal v) })
  unfolding write_json_frame
  write_json_frame-ok c e h = write_frame-ok c (codec.marshal v) e (omega arith)

  pub read_json_frame-ok :
      (c : Conn) (rest : Bytes)
      → P v
      → (0 < length (codec.marshal v)) × (length (codec.marshal v) ≤ max_frame_size)
      → c.incoming ≡ frame (codec.marshal v) ++ rest
      → read_json_frame codec c ≡ (ok v, record c { incoming = rest })
  unfolding read_json_frame
  read_json_frame-ok c rest p (lo, hi) i =
      rw (read_frame-ok c max_frame_size (codec.marshal v) rest i lo hi hi, codec.round_trip v p)
