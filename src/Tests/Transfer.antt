-- ===== src/Tests/Transfer.antt =====
-- Transfers of small files.
use p2pft.Prelude.{
  ◌≤◌, ◌<◌, ◌≡◌, refl, pos, true, none, some, Option, List, [], ◌∷◌, ◌++◌, ◌⊎◌, length, All, Bytes,
  Text, codes, concat, drop, arith,
}
use p2pft.Io.Result.{ok, err, eof, wrap}
use p2pft.Io.Conn.{Conn, closed, read_full, write}
use p2pft.Io.Disk.{
  Disk, update, short, read_file, open_append, write_file, append, tick, rename, remove,
}
use p2pft.Io.Disk.Quiet.{IsQuiet}
use p2pft.Transfer.Framing.{max_frame_size, write_frame, read_frame}
use p2pft.Transfer.Framing.RoundTrip.{frame, read_frame-write_frame}
use p2pft.Transfer.Framing.Sound.{read_frame_sound}
use p2pft.Transfer.Hex.{hex_encode}
use p2pft.Transfer.Peer.{Peer}
use p2pft.Transfer.Resume.{partial_path, meta_path, check_partial, write_meta}
use p2pft.Transfer.Checksum.{hashing_write}
use p2pft.Transfer.Resume.Check.{resumable, besides, check_partial-resumable}
use p2pft.Transfer.Protocol.{read_json_frame, write_json_frame}
use p2pft.Transfer.Sender
use p2pft.Transfer.Sender.{Sender}
use p2pft.Transfer.Sender.Stream.{IsSmall}
use p2pft.Transfer.Receiver
use p2pft.Transfer.Receiver.{Receiver}
use p2pft.Transfer.Receiver.Stream.{totals}
use p2pft.Transfer.Receiver.Atomic.{run-atomic, run-keeps_others}
use p2pft.Transfer.Receiver.Verified.{run-verifies}
use p2pft.Transfer.EndToEnd.{Ready, Exchange, transfer-delivers}
use p2pft.Transfer.Ends.{both_runs-Ended}
use p2pft.Io.Exec.Ends.{Ended}
use p2pft.Tests.Stubs.{stub_formats}

abbrev sound : Bytes → Conn
sound x = record { incoming = x; ending = closed; outgoing = []; room = none }

-- A file of five bytes, of which the receiver has two from an earlier transfer.
abbrev pub content : Bytes
content = 10 ∷ 20 ∷ 30 ∷ 40 ∷ 50 ∷ []

abbrev pub digest_text : Text
digest_text = hex_encode (stub_formats.digest.sum content)

abbrev pub sender : Sender
sender = record { source_path = codes "in"; size = pos 5; sha256 = digest_text; on_progress = true }

abbrev pub receiver : Receiver
receiver = record { dest = codes "out"; size = pos 5; sha256 = digest_text; on_progress = true }

abbrev pub sender_peer : Peer
sender_peer = record {
  conn = sound [];
  disk = record {
    files = update (λ _. none) (codes "in") (some content);
    events = short 3 ∷ short 2 ∷ short 1 ∷ [];
  };
  absorbed = [];
  progress = [];
}

abbrev pub receiver_files : Text → Option Bytes
receiver_files =
    update (update (λ _. none) (partial_path (codes "out")) (some (10 ∷ 20 ∷ [])))
      (meta_path (codes "out"))
      (some (stub_formats.partial_meta.marshal (record { size = pos 5; sha256 = digest_text })))

abbrev pub receiver_peer : Peer
receiver_peer = record {
  conn = sound [];
  disk = record { files = receiver_files; events = [] };
  absorbed = [];
  progress = [];
}

pub ready : Ready stub_formats sender receiver content (30 ∷ 40 ∷ 50 ∷ []) sender_peer receiver_peer
unfolding hex_encode
ready = record {
  sender_quiet = omega arith;
  receiver_quiet = tt;
  source = refl;
  size = refl;
  sha256 = refl;
  int64 = omega arith;
  resumes = refl;
}

transfer-delivers_example :
    (ts : Peer) × (tr : Peer) × Exchange stub_formats sender receiver sender_peer receiver_peer ts
      tr
    × (tr.disk.files
        ≡ update
            (update
              (update receiver_files (partial_path (codes "out")) none)
              (codes "out")
              (some content))
            (meta_path (codes "out"))
            none)
transfer-delivers_example =
    transfer-delivers stub_formats sender receiver content (30 ∷ 40 ∷ 50 ∷ []) sender_peer
      receiver_peer ready

read_frame-write_frame_example :
    read_frame 8 (sound (0 ∷ 0 ∷ 0 ∷ 2 ∷ 7 ∷ 8 ∷ 9 ∷ [])) ≡ (ok (7 ∷ 8 ∷ []), sound (9 ∷ []))
unfolding write_frame write
read_frame-write_frame_example =
    read_frame-write_frame (sound []) (sound (0 ∷ 0 ∷ 0 ∷ 2 ∷ 7 ∷ 8 ∷ 9 ∷ [])) 8 (7 ∷ 8 ∷ [])
      (9 ∷ []) refl refl (omega arith) (omega arith) refl

two_bytes :
    read_frame 8 (sound (0 ∷ 0 ∷ 0 ∷ 2 ∷ 7 ∷ 8 ∷ 9 ∷ [])) ≡ (ok (7 ∷ 8 ∷ []), sound (9 ∷ []))
unfolding read_frame read_full
two_bytes = refl

abbrev input : Conn
input = sound (0 ∷ 0 ∷ 0 ∷ 2 ∷ 7 ∷ 8 ∷ 9 ∷ [])

read_frame_sound_example :
    (input.incoming ≡ frame (7 ∷ 8 ∷ []) ++ (9 ∷ []))
    × (0 < 2)
    × (2 ≤ max_frame_size)
    × (2 ≤ 8)
    × (sound (9 ∷ []) ≡ record input { incoming = 9 ∷ [] })
read_frame_sound_example =
    read_frame_sound 8 input (sound (9 ∷ [])) (7 ∷ 8 ∷ []) (omega arith) two_bytes

check_partial-resumable_example :
    (d' : Disk) × (check_partial stub_formats (codes "out") (pos 5) digest_text receiver_peer.disk
      ≡ (ok (length (resumable stub_formats (codes "out") (pos 5) digest_text receiver_files)), d'))
    × IsQuiet d'
    × (besides stub_formats (codes "out") (pos 5) digest_text d'.files
        ≡ besides stub_formats (codes "out") (pos 5) digest_text receiver_files)
    × ((resumable stub_formats (codes "out") (pos 5) digest_text receiver_files ≡ [])
        ⊎ (d'.files (partial_path (codes "out"))
            ≡ some (resumable stub_formats (codes "out") (pos 5) digest_text receiver_files)))
check_partial-resumable_example =
    check_partial-resumable stub_formats (codes "out") (pos 5) digest_text receiver_peer.disk tt

two_resumed : resumable stub_formats (codes "out") (pos 5) digest_text receiver_files ≡ 10 ∷ 20 ∷ []
unfolding hex_encode
two_resumed = refl

-- The sender's side closes at once.
abbrev after_cut : Peer
after_cut = (Receiver.run stub_formats receiver receiver_peer).1

cut_short :
    Receiver.run stub_formats receiver receiver_peer
    ≡ (err (wrap "read transfer_start" (wrap "read frame header" eof)), after_cut)
unfolding Receiver.run check_partial read_file write_json_frame read_json_frame write_frame
    read_frame read_full write hex_encode
cut_short = refl

run-atomic_example : after_cut.disk.files (codes "out") ≡ none
run-atomic_example =
    run-atomic stub_formats receiver receiver_peer
      (wrap "read transfer_start" (wrap "read frame header" eof)) after_cut cut_short

run-keeps_others_example :
    (Receiver.run stub_formats receiver receiver_peer).1.disk.files (codes "x") ≡ none
run-keeps_others_example =
    run-keeps_others stub_formats receiver receiver_peer (codes "x") (λ e. cc e) (λ e. cc e)
      (λ e. cc e)

serves : Sender.Complete.Serves stub_formats sender 2 content (record sender_peer {
  conn = sound (frame (stub_formats.request.marshal (record { offset = pos 2 })));
})
unfolding hex_encode
serves = record {
  quiet = omega arith;
  room = refl;
  source = refl;
  size = refl;
  sha256 = refl;
  offset = omega arith;
  int64 = omega arith;
  request = refl;
}

run-ok_example :
    (bs : List Bytes) × (concat bs ≡ drop 2 content)
    × All IsSmall bs
    × ((t : Peer) × (Sender.run stub_formats sender (record sender_peer {
      conn = sound (frame (stub_formats.request.marshal (record { offset = pos 2 })));
    })
          ≡ (ok tt, t))
        × (t.conn.outgoing
            ≡ Sender.Complete.reply stub_formats sender 2 (stub_formats.digest.sum content) bs)
        × (t.progress ≡ totals true 2 bs))
run-ok_example =
    Sender.Complete.run-ok stub_formats sender 2 content
      (record sender_peer {
        conn = sound (frame (stub_formats.request.marshal (record { offset = pos 2 })));
      })
      serves

-- The last three bytes of a resumed transfer, with one byte behind the trailer.
abbrev last_bytes : Peer
last_bytes = record receiver_peer {
  conn = sound (
      frame (stub_formats.start.marshal (record { start_offset = pos 2 }))
      ++ (frame (30 ∷ 40 ∷ 50 ∷ []) ++ (frame [] ++ (stub_formats.digest.sum content ++ 99 ∷ []))));
}

abbrev after_last : Peer
after_last = (Receiver.run stub_formats receiver last_bytes).1

accepted : Receiver.run stub_formats receiver last_bytes ≡ (ok tt, after_last)
unfolding Receiver.run check_partial read_file write_json_frame read_json_frame write_frame
    read_frame read_full write hex_encode open_append write_meta write_file
    Receiver.seed_hash_from_partial Receiver.receive_all Receiver.receive_loop hashing_write append
    Receiver.finish tick Receiver.deliver rename remove
accepted = refl

run-verifies_example :
    (b : Bytes) × (before : Bytes) × (after_last.disk.files (codes "out") ≡ some b)
    × (last_bytes.conn.incoming ≡ before ++ (stub_formats.digest.sum b ++ after_last.conn.incoming))
run-verifies_example = run-verifies stub_formats receiver last_bytes after_last accepted

both_runs-Ended_example :
    Ended (Sender.run stub_formats sender sender_peer).0
    × Ended (Receiver.run stub_formats receiver last_bytes).0
both_runs-Ended_example = both_runs-Ended stub_formats sender receiver sender_peer last_bytes
