-- ===== src/Transfer/Receiver.antt =====
-- internal/transfer/receiver.go: the receiver's side of the protocol.
pub mod Stream
pub mod Opened
pub mod Complete
pub mod Resumed
pub mod Atomic
pub mod Synced
pub mod Seeded
pub mod Verified
pub mod Ends
pub mod Cut
pub mod Again
pub mod Interrupted
pub mod Retry
use p2pft.Prelude.{
  ℕ, zero, suc, ◌+◌, ℤ, pos, Bool, [], ◌++◌, ◌==◌, leb, eqb_ℤ, if◌then◌else◌, length, take, Bytes,
  Text, eqb_text,
}
use p2pft.Io.Result.{Result, ok, err, eof, out_of_fuel, is_eof, message, wrap}
use p2pft.Io.Exec.{Exec, pure, raise, annotate, attempt, ◌>>=◌, ◌>>◌}
use p2pft.Io.Conn.{read_full}
use p2pft.Io.Disk.{Disk, read_file, create, open_append, tick, rename, remove}
use p2pft.Transfer.Framing.{hash_size, max_frame_size, read_frame}
use p2pft.Transfer.Protocol.{
  Formats, ResumeRequest, TransferStart, PartialMeta, read_json_frame, write_json_frame,
}
use p2pft.Transfer.Peer.{Peer, on_conn, on_disk, report}
use p2pft.Transfer.Resume.{partial_path, meta_path, check_partial, write_meta}
use p2pft.Transfer.Checksum.{hash_sum, hashing_write}
use p2pft.Transfer.Sender.{notify}

-- `on_progress` says whether `OnProgress` is set. `Conn` and the disk are in the `Peer`.
pub record Receiver : Type 0 where
  pub dest : Text
  pub size : ℤ
  pub sha256 : Text
  pub on_progress : Bool

-- `os.Create`, or `os.OpenFile` with `O_WRONLY|O_APPEND`.
abbrev pub open_partial : Text → ℕ → Exec Disk (Unit {0})
open_partial path offset = if offset == 0 then create path else open_append path

-- A new `sha256.New()`.
abbrev pub reset_hash : Exec Peer (Unit {0})
reset_hash s = (ok tt, record s { absorbed = [] })

-- `io.CopyN(h, f, n)` on a file that holds `b`.
abbrev pub absorb_prefix : ℕ → Bytes → Exec Peer (Unit {0})
absorb_prefix n b s =
    (if leb n (length b) then ok tt else err eof, record s { absorbed = s.absorbed ++ take n b })

unfoldable pub seed_hash_from_partial : Text → ℕ → Exec Peer (Unit {0})
seed_hash_from_partial path n = do b ← on_disk (read_file path); absorb_prefix n b

-- The body of the loop of `Run`, with the rounds to come as `next`.
abbrev pub take_frame :
    Text → Bool → ℕ → (ℕ → Exec Peer (Unit {0})) → Result Bytes → Exec Peer (Unit {0})
take_frame path on received next (ok b) = do
  annotate "write to partial" (hashing_write path b)
  notify on (received + length b)
  next (received + length b)
take_frame path on received next (err e) = if is_eof e then pure tt else raise (wrap "read frame" e)

-- The loop of `Run` with fuel: each round but the last takes a frame off the input.
unfoldable pub receive_loop : Text → Bool → ℕ → ℕ → Exec Peer (Unit {0})
receive_loop path on zero received = raise out_of_fuel
receive_loop path on (suc fuel) received = do
  r ← attempt (on_conn (read_frame max_frame_size))
  take_frame path on received (receive_loop path on fuel) r

unfoldable pub receive_all : Text → Bool → ℕ → Exec Peer (Unit {0})
receive_all path on received s = receive_loop path on (suc (length s.conn.incoming)) received s

module _ (formats : Formats) (r : Receiver) where
  -- The comparison of the trailer with the rolling hash.
  abbrev pub check_trailer : Bytes → Exec Peer (Unit {0})
  check_trailer trailer s = (
    if eqb_text trailer (hash_sum formats.digest s) then ok tt else err (message "hash mismatch"),
    s,
  )

  -- The end of `Run`: what `os.Remove` answers is dropped.
  unfoldable pub deliver : Exec Peer (Unit {0})
  deliver = do
    annotate "rename to dest" (on_disk (rename (partial_path r.dest) r.dest))
    on_disk (remove (meta_path r.dest))

  -- `Run` behind the loop: the trailer, then the rename.
  unfoldable pub finish : Exec Peer (Unit {0})
  finish = do
    trailer ← annotate "read trailer hash" (on_conn (read_full hash_size))
    check_trailer trailer
    annotate "sync partial" (on_disk tick)
    annotate "close partial" (on_disk tick)
    deliver

  abbrev pub seed : ℕ → Exec Peer (Unit {0})
  seed offset =
      if offset == 0
      then pure tt
      else annotate "seed hash from partial" (seed_hash_from_partial (partial_path r.dest) offset)

  -- `Run` from the opening of the partial file on.
  unfoldable pub receive_file : ℕ → Exec Peer (Unit {0})
  receive_file offset = do
    annotate "open partial" (on_disk (open_partial (partial_path r.dest) offset))
    annotate "write meta sidecar"
        (on_disk (write_meta formats r.dest (record { size = r.size; sha256 = r.sha256 })))
    reset_hash
    seed offset
    receive_all (partial_path r.dest) r.on_progress offset
    finish

  -- `Run` behind the reading of the answer.
  unfoldable pub accept : ℕ → TransferStart → Exec Peer (Unit {0})
  unfolding receive_file
  accept offset start =
      if eqb_ℤ start.start_offset (pos offset)
      then receive_file offset
      else raise (message "sender disagreed on start offset")

  -- `Receiver.Run`
  unfoldable pub run : Exec Peer (Unit {0})
  unfolding accept
  run = do
    offset ← annotate "check partial" (on_disk (check_partial formats r.dest r.size r.sha256))
    annotate "write resume_request"
        (on_conn (write_json_frame formats.request (record { offset = pos offset })))
    start ← annotate "read transfer_start" (on_conn (read_json_frame formats.start))
    accept offset start
