-- ===== src/Io/Conn.antt =====
-- One end of a `net.Conn`: what the peer will have sent, and what has been written.
pub mod Reads
use p2pft.Prelude.{
  ℕ, ◌-◌, Option, none, some, [], ◌∷◌, ◌++◌, leb, if◌then◌else◌, length, take, drop, Bytes,
}
use p2pft.Io.Result.{Error, ok, err, eof, unexpected_eof, failed}
use p2pft.Io.Exec.{Exec}

-- How reading goes on behind the last byte: the peer has closed, or the connection breaks
-- (a reset, a passed deadline, a close by `contextCloser`).
pub data Ending : Type 0 where
  closed broken : Ending

-- `room` is the number of bytes that can be written before the connection breaks, if it does.
pub record Conn : Type 0 where
  pub incoming : Bytes
  pub ending : Ending
  pub outgoing : Bytes
  pub room : Option ℕ

abbrev pub read_error : Ending → Bytes → Error
read_error broken _ = failed
read_error closed [] = eof
read_error closed (b ∷ bs) = unexpected_eof

-- `io.ReadFull(conn, buf)` with `len(buf) = n`; what was read before an error is lost to the caller.
unfoldable pub read_full : ℕ → Exec Conn Bytes
read_full n c =
    if leb n (length c.incoming)
    then (ok (take n c.incoming), record c { incoming = drop n c.incoming })
    else (err (read_error c.ending c.incoming), record c { incoming = [] })

abbrev pub write_within : Option ℕ → Bytes → Exec Conn (Unit {0})
write_within none p c = (ok tt, record c { outgoing = c.outgoing ++ p })
write_within (some k) p c =
    if leb (length p) k
    then (ok tt, record c { outgoing = c.outgoing ++ p; room = some (k - length p) })
    else (err failed, record c { outgoing = c.outgoing ++ take k p; room = some 0 })

-- `conn.Write(p)`
unfoldable pub write : Bytes → Exec Conn (Unit {0})
write p c = write_within c.room p c
