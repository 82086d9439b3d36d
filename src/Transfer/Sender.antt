-- ===== src/Transfer/Sender.antt =====
-- internal/transfer/sender.go: the sender's side of the protocol.
pub mod Stream
pub mod Complete
pub mod Ends
use p2pft.Prelude.{
  ℕ, zero, suc, ◌+◌, ℤ, pos, negsuc, Bool, ◌||◌, [], ◌==◌, ltb_ℤ, if◌then◌else◌, length, take, drop,
  min, Bytes, Text,
}
use p2pft.Io.Result.{Result, ok, err, failed, out_of_fuel, message}
use p2pft.Io.Exec.{Exec, pure, raise, lift, annotate, ◌>>=◌, ◌>>◌}
use p2pft.Io.Conn.{write}
use p2pft.Io.Disk.{Event, fails, short, runs, Disk, next_event, spend, read_file, tick}
use p2pft.Transfer.Framing.{default_chunk_size, hash_size, write_frame}
use p2pft.Transfer.Hex.{hex_decode_fixed}
use p2pft.Transfer.Protocol.{
  Formats, ResumeRequest, TransferStart, read_json_frame, write_json_frame,
}
use p2pft.Transfer.Peer.{Peer, on_conn, on_disk, report}

-- `on_progress` says whether `OnProgress` is set. `Conn` and the disk are in the `Peer`.
pub record Sender : Type 0 where
  pub source_path : Text
  pub size : ℤ
  pub sha256 : Text
  pub on_progress : Bool

-- The number of bytes that `f.Read(buf)` gives while the file has more: at least one.
abbrev pub read_count : Event → ℕ
read_count (short zero) = 1
read_count (short (suc k)) = min (suc k) default_chunk_size
read_count _ = default_chunk_size

-- What is read and what is left; the empty chunk is `io.EOF`.
abbrev pub read_event : Event → Bytes → Result (Bytes × Bytes)
read_event (fails _) rest = err failed
read_event e rest = ok (take (read_count e) rest, drop (read_count e) rest)

-- `f.Read(buf)` with `rest` behind the file's position.
unfoldable pub read_chunk : Bytes → Exec Disk (Bytes × Bytes)
read_chunk rest d = (read_event (next_event d.events) rest, spend d)

-- `if s.OnProgress != nil { s.OnProgress(sent) }`
abbrev pub notify : Bool → ℕ → Exec Peer (Unit {0})
notify on n = if on then report n else pure tt

-- The body of the loop of `Run`, with the rounds to come as `next`.
abbrev pub send_chunk :
    Bool → ℕ → (Bytes → ℕ → Exec Peer (Unit {0})) → Bytes × Bytes → Exec Peer (Unit {0})
send_chunk on sent next (chunk, rest) = if length chunk == 0 then pure tt else do
  annotate "write chunk" (on_conn (write_frame chunk))
  notify on (sent + length chunk)
  next rest (sent + length chunk)

-- The loop of `Run` with fuel: each round but the last reads a byte of the file.
unfoldable pub send_loop : Bool → ℕ → Bytes → ℕ → Exec Peer (Unit {0})
send_loop on zero rest sent = raise out_of_fuel
send_loop on (suc fuel) rest sent = do
  read ← annotate "read source" (on_disk (read_chunk rest))
  send_chunk on sent (send_loop on fuel) read

-- An offset that has passed the test of `Run`.
abbrev pub to_ℕ : ℤ → ℕ
to_ℕ (pos n) = n
to_ℕ (negsuc n) = 0

-- `f.Seek`, only called for an offset above 0.
abbrev pub seek : ℕ → Exec Disk (Unit {0})
seek offset = if offset == 0 then pure tt else tick

module _ (formats : Formats) (s : Sender) where
  -- `Run` from the opening of the file on.
  unfoldable pub send_file : ℕ → Exec Peer (Unit {0})
  send_file offset = do
    b ← annotate "open source" (on_disk (read_file s.source_path))
    annotate "seek" (on_disk (seek offset))
    send_loop s.on_progress (suc (length b)) (drop offset b) offset
    annotate "write EOS" (on_conn (write_frame []))
    hash ← annotate "decode sha256" (lift (hex_decode_fixed s.sha256 hash_size))
    annotate "write hash" (on_conn (write hash))

  -- `Run` behind the reading of the request.
  unfoldable pub answer : ResumeRequest → Exec Peer (Unit {0})
  unfolding send_file
  answer req =
      if ltb_ℤ req.offset (pos 0) || ltb_ℤ s.size req.offset
      then raise (message "invalid resume offset")
      else do
        annotate "write transfer_start"
            (on_conn (write_json_frame formats.start (record { start_offset = req.offset })))
        send_file (to_ℕ req.offset)

  -- `Sender.Run`
  unfoldable pub run : Exec Peer (Unit {0})
  unfolding answer
  run = do
    req ← annotate "read resume_request" (on_conn (read_json_frame formats.request))
    answer req
