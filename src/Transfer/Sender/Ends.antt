-- ===== src/Transfer/Sender/Ends.antt =====
-- The sender has rounds enough, whatever the peer sends and whichever calls fail.
use p2pft.Prelude.{
  ℕ, zero, suc, ◌<◌, Bool, true, false, Option, none, some, ◌==◌, length, length-drop, length-take,
  take, drop, Bytes, Text, inl, inr, Bool-cases, arith,
}
use p2pft.Io.Result.{Result, ok, err, annotated}
use p2pft.Io.Exec.{Exec, follow}
use p2pft.Io.Exec.Ends.{Ended, Ends, ends_rules}
use p2pft.Io.Disk.{Event, runs, short, fails, next_event, spend}
use p2pft.Io.Disk.Ends.{read_file-Ends, tick-Ends}
use p2pft.Transfer.Hex.{hex_decode_fixed, of_length, hex_decode}
use p2pft.Transfer.Protocol.{Formats, ResumeRequest}
use p2pft.Transfer.Protocol.Ends.{
  write-Ends, write_frame-Ends, read_json_frame-Ends, write_json_frame-Ends,
}
use p2pft.Transfer.Peer.{Peer, on_conn-Ends, on_disk-Ends}
use p2pft.Transfer.Sender.{
  Sender, read_count, read_event, read_chunk, notify, send_chunk, send_loop, seek, send_file,
  answer, run,
}

ruleset peer_rules = (ends_rules, on_disk-Ends, on_conn-Ends)

-- The bytes that are left are fewer than `fuel`, or none was read.
abbrev Shorter : ℕ → Result (Bytes × Bytes) → Type 0
Shorter fuel (ok (chunk, rest)) = 0 < length chunk → length rest < fuel
Shorter fuel (err e) = Unit

read_event-Ended : (e : Event) (rest : Bytes) → Ended (read_event e rest)
read_event-Ended (fails k) rest = tt
read_event-Ended runs rest = tt
read_event-Ended (short k) rest = tt

read_count_positive : (e : Event) → 0 < read_count e
read_count_positive (fails k) = omega arith
read_count_positive runs = omega arith
read_count_positive (short zero) = omega arith
read_count_positive (short (suc k)) = omega arith

dropped :
    (k : ℕ) (rest : Bytes) (fuel : ℕ)
    → 0 < k
    → length rest < suc fuel
    → 0 < length (take k rest)
    → length (drop k rest) < fuel
dropped k rest fuel p h q = omega (arith, length-drop k rest, length-take k rest)

read_event-Shorter :
    (e : Event) (rest : Bytes) (fuel : ℕ)
    → length rest < suc fuel
    → Shorter fuel (read_event e rest)
read_event-Shorter (fails k) rest fuel h = tt
read_event-Shorter runs rest fuel h = dropped _ rest fuel (read_count_positive runs) h
read_event-Shorter (short k) rest fuel h = dropped _ rest fuel (read_count_positive (short k)) h

hex_decode_fixed-Ended : (t : Text) (n : ℕ) → Ended (hex_decode_fixed t n)
unfolding hex_decode_fixed
hex_decode_fixed-Ended t n = checked (hex_decode t)
  where
    checked : (o : Option Bytes) → Ended (of_length n o)
    checked none = tt
    checked (some b) = elim (Bool-cases (length b == n)) [ inl y ↦ rw y tt | inr z ↦ rw z tt ]

notify-Ends : (on : Bool) (n : ℕ) → Ends (notify on n)
notify-Ends true n = record { at = λ s. tt }
notify-Ends false n = record { at = λ s. tt }

module _ (on : Bool) where
  module _ (fuel : ℕ) (next : Bytes → ℕ → Exec Peer (Unit {0}))
      (more : (rest : Bytes) (k : ℕ) → length rest < fuel → Ends (next rest k)) (sent : ℕ) where
    -- One round, if the rounds to come end on fewer bytes.
    send_chunk-Ends :
        (chunk rest : Bytes)
        → (0 < length chunk → length rest < fuel)
        → Ends (send_chunk on sent next (chunk, rest))
    send_chunk-Ends chunk rest h = elim (Bool-cases (length chunk == 0)) [
      | inl z ↦ rw z (record { at = λ s. tt })
      | inr z ↦
          let fewer : length rest < fuel = h (ground (arith, z)) in
          rw z (search (peer_rules, write_frame-Ends, notify-Ends, more, fewer) depth 8)
    ]

    send_read-Ended :
        (r : Result (Bytes × Bytes)) (s : Peer)
        → Ended r
        → Shorter fuel r
        → Ended (follow (annotated "read source" r) (λ read. send_chunk on sent next read) s).0
    send_read-Ended (ok (chunk, rest)) s h f = (send_chunk-Ends chunk rest f).at s
    send_read-Ended (err e) s h f = h

  send_loop-Ends :
      (fuel : ℕ) (rest : Bytes) (sent : ℕ) → length rest < fuel → Ends (send_loop on fuel rest sent)
  unfolding send_loop read_chunk
  send_loop-Ends zero rest sent h = absurd (omega arith)
  send_loop-Ends (suc fuel) rest sent h = record {
    at = λ s.
        let e = next_event s.disk.events in
        send_read-Ended fuel (send_loop on fuel) (send_loop-Ends fuel) sent (read_event e rest)
          (record s { disk = spend s.disk }) (read_event-Ended e rest)
          (read_event-Shorter e rest fuel h);
  }

seek-Ends : (n : ℕ) → Ends (seek n)
seek-Ends n = search (ends_rules, tick-Ends)

module _ (formats : Formats) (s : Sender) where
  rest_sent-Ends :
      (b : Bytes) (n : ℕ) → Ends (send_loop s.on_progress (suc (length b)) (drop n b) n)
  rest_sent-Ends b n =
      send_loop-Ends s.on_progress (suc (length b)) (drop n b) n (omega (arith, length-drop n b))

  send_file-Ends : (n : ℕ) → Ends (send_file formats s n)
  unfolding send_file
  send_file-Ends n =
      search
        (
          peer_rules, read_file-Ends, seek-Ends, rest_sent-Ends, write_frame-Ends, write-Ends,
          hex_decode_fixed-Ended,
        )
        depth 9

  answer-Ends : (req : ResumeRequest) → Ends (answer formats s req)
  unfolding answer
  answer-Ends req = search (peer_rules, write_json_frame-Ends, send_file-Ends) depth 7

  run-Ends : Ends (run formats s)
  unfolding run
  run-Ends = search (peer_rules, read_json_frame-Ends, answer-Ends) depth 7

  -- Whatever the peer sends and whichever calls fail, `Run` comes to an end, with success or with
  -- an error of its own: its loop has rounds enough.
  pub run-Ended : (p : Peer) → Ended (run formats s p).0
  run-Ended p = run-Ends.at p
