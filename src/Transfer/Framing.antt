-- ===== src/Transfer/Framing.antt =====
-- internal/transfer/framing.go: length-prefixed frames on a byte stream.
pub mod RoundTrip
pub mod Sound
pub mod Cut
use p2pft.Prelude.{ℕ, ◌+◌, ◌*◌, ◌/◌, ◌%◌, ◌^◌, [], ◌∷◌, ◌==◌, ltb, if◌then◌else◌, length, Bytes}
use p2pft.Io.Result.{eof, short_buffer, frame_too_large}
use p2pft.Io.Exec.{Exec, pure, raise, annotate, ◌>>=◌, ◌>>◌}
use p2pft.Io.Conn.{Conn, read_full, write}

abbrev pub default_chunk_size : ℕ
default_chunk_size = 64 * 1024

abbrev pub hash_size : ℕ
hash_size = 32

abbrev pub max_frame_size : ℕ
max_frame_size = 2 ^ 20

-- `binary.BigEndian.PutUint32`
abbrev pub put_uint32 : ℕ → Bytes
put_uint32 n = (n / 2 ^ 24 % 256) ∷ (n / 2 ^ 16 % 256) ∷ (n / 2 ^ 8 % 256) ∷ (n % 256) ∷ []

-- `binary.BigEndian.Uint32`, which reads four bytes.
abbrev pub uint32 : Bytes → ℕ
uint32 (a ∷ b ∷ c ∷ d ∷ _) = a * 2 ^ 24 + b * 2 ^ 16 + c * 2 ^ 8 + d
uint32 _ = 0

-- `uint32(len(data))` wraps.
unfoldable pub write_frame : Bytes → Exec Conn (Unit {0})
write_frame b = do
  annotate "write frame header" (write (put_uint32 (length b % 2 ^ 32)))
  if length b == 0 then pure tt else annotate "write frame body" (write b)

-- What `ReadFrame` does with the length prefix `n`, for `len(buf) = size`.
abbrev pub frame_body : ℕ → ℕ → Exec Conn Bytes
frame_body size n =
    if n == 0
    then raise eof
    else if ltb max_frame_size n
    then raise frame_too_large
    else if ltb size n
    then raise short_buffer
    else annotate "read frame body" (read_full n)

-- The result is `buf[:n]`. No caller looks at the count that comes with an error.
unfoldable pub read_frame : ℕ → Exec Conn Bytes
read_frame size = do hdr ← annotate "read frame header" (read_full 4); frame_body size (uint32 hdr)
