-- ===== src/Transfer/Receiver/Cut.antt =====
-- The loop of `Run` on the stream of a sender that breaks off anywhere, where no call on the disk
-- fails.
use p2pft.Prelude.{
  ℕ, zero, suc, ◌+◌, ◌≤◌, ◌<◌, ◌≡◌, refl, sym, ap, ◌∙◌, ◌⊎◌, inl, inr, Bool, Bool-cases, some, List,
  [], ◌∷◌, ◌++◌, if◌then◌else◌, length, length-append, All, concat, append-nil, append_assoc, Bytes,
  Text, arith,
}
use p2pft.Io.Result.{Result, ok, err, Error, wrap, is_eof}
use p2pft.Io.Disk.{update}
use p2pft.Io.Disk.Quiet.{IsQuiet, spend-IsQuiet, update_self, update_same, update-update}
use p2pft.Transfer.Framing.{max_frame_size, put_uint32}
use p2pft.Transfer.Framing.RoundTrip.{frame}
use p2pft.Transfer.Framing.Cut.{prefix_cases, read_frame-short}
use p2pft.Transfer.Peer.{Peer}
use p2pft.Transfer.Receiver.{receive_loop}
use p2pft.Transfer.Receiver.Stream.{
  frames, IsChunk, Received, written, reading, noted, receive_loop_round, receive_loop_end,
  Received-nil, Received-cons,
}

-- The loop has taken `kept` of the content to come, and nothing is left on the stream.
pub record Stops (path : Text) (old whole : Bytes) (s t : Peer) : Type 0 where
  pub kept : Bytes
  pub missing : Bytes
  pub parts : whole ≡ kept ++ missing
  pub files : t.disk.files ≡ update s.disk.files path (some (old ++ kept))
  pub dry : t.conn.incoming ≡ []
  pub quiet : IsQuiet t.disk

-- It has taken all chunks and the marker, and some of what comes behind; or it has stopped.
pub record Full (path : Text) (on : Bool) (n : ℕ) (old : Bytes) (bs : List Bytes)
    (rest lost : Bytes) (s : Peer) (run : Result (Unit {0}) × Peer) : Type 0 where
  pub end : Peer
  pub ran : run ≡ (ok tt, end)
  pub more : Bytes
  pub received : Received path on n old bs more s end
  pub later : more ++ lost ≡ rest

pub record Partly (path : Text) (old whole : Bytes) (s : Peer) (run : Result (Unit {0}) × Peer)
    : Type 0 where
  pub answer : Result (Unit {0})
  pub end : Peer
  pub ran : run ≡ (answer, end)
  pub stops : Stops path old whole s end

module _ (path : Text) (on : Bool) where
  nothing :
      (old whole : Bytes) (s : Peer)
      → IsQuiet s.disk
      → s.disk.files path ≡ some old
      → Stops path old whole s (reading [] s)
  nothing old whole s q e = record {
    kept = [];
    missing = whole;
    parts = refl;
    files = sym (update_same s.disk.files path _ (rw (append-nil old) e));
    dry = refl;
    quiet = q;
  }

  stops_short :
      (fuel n : ℕ) (old whole b ys lost : Bytes) (s : Peer)
      → IsQuiet s.disk
      → s.disk.files path ≡ some old
      → length b ≤ max_frame_size
      → s.conn.incoming ++ lost ≡ frame b ++ ys
      → length s.conn.incoming < length (frame b)
      → Partly path old whole s (receive_loop path on (suc fuel) n s)
  unfolding receive_loop
  stops_short fuel n old whole b ys lost s q e hi i short =
      let (msg, y, k) = read_frame-short max_frame_size b ys lost s.conn hi hi i short in
      let x : Error = wrap msg y in
      record {
        answer = if is_eof x then ok tt else err (wrap "read frame" x);
        end = reading [] s;
        ran = elim (Bool-cases (is_eof x)) [
          | inl at_end ↦ rw (k, at_end) refl
          | inr broken ↦ rw (k, broken) refl
        ];
        stops = nothing old whole s q e;
      }

  Stops-cons :
      (old b whole more : Bytes) (n : ℕ) (s t : Peer)
      → Stops path (old ++ b) whole (noted on n (written path old b (reading more s))) t
      → Stops path old (b ++ whole) s t
  Stops-cons old b whole more n s t h = record {
    kept = b ++ h.kept;
    missing = h.missing;
    parts = ap (λ (w : Bytes). b ++ w) h.parts ∙ sym (append_assoc b h.kept h.missing);
    files =
        h.files
        ∙ update-update s.disk.files path _ _
        ∙ ap (λ c. update s.disk.files path (some c)) (append_assoc old b h.kept);
    dry = h.dry;
    quiet = h.quiet;
  }

  pub receive_loop-cut :
      (bs : List Bytes) (fuel n : ℕ) (old rest lost : Bytes) (s : Peer)
      → length s.conn.incoming < fuel
      → IsQuiet s.disk
      → s.disk.files path ≡ some old
      → All IsChunk bs
      → s.conn.incoming ++ lost ≡ frames bs ++ (frame [] ++ rest)
      → Full path on n old bs rest lost s (receive_loop path on fuel n s)
        ⊎ Partly path old (concat bs) s (receive_loop path on fuel n s)
  receive_loop-cut bs zero n old rest lost s h q e cs i = absurd (omega arith)
  receive_loop-cut [] (suc fuel) n old rest lost s h q e cs i =
      elim (prefix_cases (frame []) rest s.conn.incoming lost i) [
        | inl short ↦ inr (stops_short fuel n old [] [] rest lost s q e (omega arith) i short)
        | inr (more, at, later) ↦ inl (record {
          end = reading more s;
          ran = receive_loop_end path on fuel n more s at;
          more = more;
          received = Received-nil path on n old more s q e;
          later = later;
        })
      ]
  receive_loop-cut (b ∷ bs) (suc fuel) n old rest lost s h q e (c, cs) i =
      let j = i ∙ append_assoc (frame b) (frames bs) (frame [] ++ rest) in
      elim (prefix_cases (frame b) (frames bs ++ (frame [] ++ rest)) s.conn.incoming lost j) [
        | inl short ↦ inr (
            stops_short fuel n old (concat (b ∷ bs)) b (frames bs ++ (frame [] ++ rest)) lost s q e
              c.1 j short)
        | inr (more, at, later) ↦
            let s₁ : Peer = noted on (n + length b) (written path old b (reading more s)) in
            let step = receive_loop_round path on fuel n old b more s q e c at in
            elim (receive_loop-cut bs fuel (n + length b) (old ++ b) rest lost s₁
              (omega (
                arith,
                h,
                ap length at,
                length-append (frame b) more,
                length-append (put_uint32 (length b)) b,
              ))
              (spend-IsQuiet s.disk q) (update_self s.disk.files path (some (old ++ b))) cs later) [
                | inl f ↦ inl (record {
                  end = f.end;
                  ran = step ∙ f.ran;
                  more = f.more;
                  received = Received-cons path on n old b bs more f.more s f.end f.received;
                  later = f.later;
                })
                | inr p ↦ inr (record {
                  answer = p.answer;
                  end = p.end;
                  ran = step ∙ p.ran;
                  stops = Stops-cons old b (concat bs) more (n + length b) s p.end p.stops;
                })
              ]
      ]
