-- ===== src/Transfer/Receiver/Ends.antt =====
-- The receiver has rounds enough, whatever the peer sends and whichever calls fail.
use p2pft.Prelude.{
  ℕ, zero, suc, ◌+◌, ◌<◌, ◌≡◌, refl, ap, Bool, true, false, [], ◌∷◌, ◌++◌, leb, length, Bytes, Text,
  inl, inr, Bool-cases, arith, eqb_text,
}
use p2pft.Io.Result.{Result, ok, err, is_eof, annotated}
use p2pft.Io.Exec.{Exec, follow, ◌>>◌}
use p2pft.Io.Exec.Ends.{Ended, Ends, ends_rules}
use p2pft.Io.Disk.Ends.{
  read_file-Ends, open_append-Ends, create-Ends, remove-Ends, append-Ended, tick-Ends, rename-Ends,
}
use p2pft.Transfer.Framing.{max_frame_size, read_frame}
use p2pft.Transfer.Protocol.{Formats, TransferStart}
use p2pft.Transfer.Peer.{Peer, on_disk-Ends, on_conn-Ends}
use p2pft.Transfer.Checksum.{hashing_write}
use p2pft.Transfer.Sender.{notify}
use p2pft.Transfer.Receiver.{
  Receiver, reset_hash, absorb_prefix, seed_hash_from_partial, take_frame, receive_loop,
  receive_all, check_trailer, deliver, finish, receive_file, accept, run,
}
use p2pft.Transfer.Protocol.Ends.{
  read_full-Ends, read_frame-Ends, read_frame_shrinks, read_json_frame-Ends, write_json_frame-Ends,
}
use p2pft.Transfer.Resume.Ends.{check_partial-Ends, write_meta-Ends}

module _ (path : Text) (on : Bool) where
  hashing_write-Ends : (b : Bytes) → Ends (hashing_write path b)
  unfolding hashing_write
  hashing_write-Ends b = record { at = λ s. append-Ended path b s.disk }

  module _ (n fuel : ℕ) (next : ℕ → Exec Peer (Unit {0}))
      (more : (k : ℕ) (t : Peer) → length t.conn.incoming < fuel → Ended (next k t).0) where
    notified :
        (o : Bool) (k : ℕ) (t : Peer)
        → length t.conn.incoming < fuel
        → Ended ((notify o k >> next k) t).0
    notified true k t h = more k (record t { progress = t.progress ++ k ∷ [] }) h
    notified false k t h = more k t h

    written :
        (k : ℕ) (w : Result (Unit {0})) (t : Peer)
        → Ended w
        → length t.conn.incoming < fuel
        → Ended (follow (annotated "write to partial" w) (λ _. notify on k >> next k) t).0
    written k (ok u) t h small = notified on k t small
    written k (err e) t h small = h

    -- One round, if the rounds to come end on a shorter input.
    take_frame-Ended :
        (r : Result Bytes) (s : Peer)
        → Ended r
        → ((b : Bytes) → r ≡ ok b → length s.conn.incoming < fuel)
        → Ended (take_frame path on n next r s).0
    unfolding hashing_write
    take_frame-Ended (ok b) s h small =
        written (n + length b) (hashing_write path b s).0 (hashing_write path b s).1
          ((hashing_write-Ends b).at s) (small b refl)
    take_frame-Ended (err e) s h small = elim (Bool-cases (is_eof e)) [
      | inl over ↦ rw over tt
      | inr cut ↦ rw cut h
    ]

  receive_loop-Ended :
      (fuel n : ℕ) (s : Peer)
      → length s.conn.incoming < fuel
      → Ended (receive_loop path on fuel n s).0
  unfolding receive_loop
  receive_loop-Ended zero n s h = absurd (omega arith)
  receive_loop-Ended (suc fuel) n s h =
      take_frame-Ended n fuel (receive_loop path on fuel) (receive_loop-Ended fuel)
        (read_frame max_frame_size s.conn).0
        (record s { conn = (read_frame max_frame_size s.conn).1 })
        ((read_frame-Ends max_frame_size).at s.conn)
        (λ b e. omega (
          arith,
          read_frame_shrinks max_frame_size s.conn
              (ap (λ (r : Result Bytes). (r, (read_frame max_frame_size s.conn).1)) e),
        ))

  receive_all-Ends : (n : ℕ) → Ends (receive_all path on n)
  unfolding receive_all
  receive_all-Ends n = record {
    at = λ s. receive_loop-Ended (suc (length s.conn.incoming)) n s (omega arith);
  }

ruleset peer_rules = (ends_rules, on_disk-Ends, on_conn-Ends)

module _ (formats : Formats) where
  absorb_prefix-Ends : (n : ℕ) (b : Bytes) → Ends (absorb_prefix n b)
  absorb_prefix-Ends n b = record {
    at = λ s. elim (Bool-cases (leb n (length b))) [ inl fits ↦ rw fits tt | inr cut ↦ rw cut tt ];
  }

  seed_hash-Ends : (path : Text) (n : ℕ) → Ends (seed_hash_from_partial path n)
  unfolding seed_hash_from_partial
  seed_hash-Ends path n = search (peer_rules, read_file-Ends, absorb_prefix-Ends)

  reset_hash-Ends : Ends reset_hash
  reset_hash-Ends = record { at = λ s. tt }

  module _ (r : Receiver) where
    check_trailer-Ends : (x : Bytes) → Ends (check_trailer formats r x)
    check_trailer-Ends x = record {
      at = λ s. elim (Bool-cases (eqb_text x (formats.digest.sum s.absorbed))) [
        | inl same ↦ rw same tt
        | inr other ↦ rw other tt
      ];
    }

    deliver-Ends : Ends (deliver formats r)
    unfolding deliver
    deliver-Ends = search (peer_rules, rename-Ends, remove-Ends)

    finish-Ends : Ends (finish formats r)
    unfolding finish
    finish-Ends =
        search (peer_rules, read_full-Ends, check_trailer-Ends, tick-Ends, deliver-Ends) depth 8

    receive_file-Ends : (n : ℕ) → Ends (receive_file formats r n)
    unfolding receive_file
    receive_file-Ends n =
        search
          (
            peer_rules, open_append-Ends, create-Ends, write_meta-Ends, reset_hash-Ends,
            seed_hash-Ends, receive_all-Ends, finish-Ends,
          )
          depth 9

    accept-Ends : (n : ℕ) (start : TransferStart) → Ends (accept formats r n start)
    unfolding accept
    accept-Ends n start = search (peer_rules, receive_file-Ends)

    run-Ends : Ends (run formats r)
    unfolding run
    run-Ends =
        search
          (peer_rules, check_partial-Ends, write_json_frame-Ends, read_json_frame-Ends, accept-Ends)
          depth 8

  -- Whatever the peer sends and whichever calls fail, `Run` comes to an end, with success or with
  -- an error of its own: its loop has rounds enough.
  pub run-Ended : (r : Receiver) (s : Peer) → Ended (run formats r s).0
  run-Ended r s = (run-Ends r).at s
