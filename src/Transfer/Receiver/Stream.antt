-- ===== src/Transfer/Receiver/Stream.antt =====
-- The loop of `Run` on a stream of frames that ends as it should.
use p2pft.Prelude.{
  ℕ, zero, suc, ◌+◌, ◌≤◌, ◌<◌, ◌≡◌, refl, sym, ap, ◌∙◌, Bool, true, false, some, List, [], ◌∷◌,
  ◌++◌, if◌then◌else◌, length, All, concat, append-nil, append_assoc, take-eq_self, Bytes, Text,
  arith,
}
use p2pft.Io.Result.{ok}
use p2pft.Io.Disk.{update, spend}
use p2pft.Io.Disk.Quiet.{IsQuiet, spend-IsQuiet, append-ok, update_self, update_same, update-update}
use p2pft.Transfer.Framing.{max_frame_size}
use p2pft.Transfer.Framing.RoundTrip.{frame, read_frame-ok, read_frame_end}
use p2pft.Transfer.Peer.{Peer}
use p2pft.Transfer.Checksum.{hashing_write}
use p2pft.Transfer.Sender.{notify}
use p2pft.Transfer.Receiver.{receive_loop}

-- The bytes of several frames.
abbrev pub frames : List Bytes → Bytes
frames [] = []
frames (b ∷ bs) = frame b ++ frames bs

-- A chunk that fits a frame.
abbrev pub IsChunk : Bytes → Type 0
IsChunk b = (0 < length b) × (length b ≤ max_frame_size)

-- The arguments of the progress calls for chunks that come after `n` bytes.
abbrev pub totals : Bool → ℕ → List Bytes → List ℕ
totals on n [] = []
totals on n (b ∷ bs) =
    let rest = totals on (n + length b) bs in if on then (n + length b) ∷ rest else rest

-- What a loop that has taken the chunks `bs` leaves behind.
pub record Received (path : Text) (on : Bool) (n : ℕ) (old : Bytes) (bs : List Bytes) (rest : Bytes)
    (s t : Peer) : Type 0 where
  pub input : t.conn ≡ record s.conn { incoming = rest }
  pub quiet : IsQuiet t.disk
  pub files : t.disk.files ≡ update s.disk.files path (some (old ++ concat bs))
  pub absorbed : t.absorbed ≡ s.absorbed ++ concat bs
  pub progress : t.progress ≡ s.progress ++ totals on n bs

-- The state behind the write of one chunk.
abbrev pub written : Text → Bytes → Bytes → Peer → Peer
written path old b s = record s {
  disk = record (spend s.disk) { files = update s.disk.files path (some (old ++ b)) };
  absorbed = s.absorbed ++ b;
}

hashing_write-ok :
    (path : Text) (old b : Bytes) (s : Peer)
    → IsQuiet s.disk
    → s.disk.files path ≡ some old
    → 0 < length b
    → hashing_write path b s ≡ (ok tt, written path old b s)
unfolding hashing_write
hashing_write-ok path old b s q e h =
    rw (append-ok s.disk q path old b e) (ground (arith, take-eq_self (length b) b))

abbrev pub noted : Bool → ℕ → Peer → Peer
noted on n s = record s { progress = if on then s.progress ++ n ∷ [] else s.progress }

pub notify-ok : (on : Bool) (n : ℕ) (s : Peer) → notify on n s ≡ (ok tt, noted on n s)
notify-ok on n s = ground arith

abbrev pub reading : Bytes → Peer → Peer
reading rest s = record s { conn = record s.conn { incoming = rest } }

pub receive_loop_round :
    (path : Text) (on : Bool) (fuel n : ℕ) (old b rest : Bytes) (s : Peer)
    → IsQuiet s.disk
    → s.disk.files path ≡ some old
    → IsChunk b
    → s.conn.incoming ≡ frame b ++ rest
    → receive_loop path on (suc fuel) n s
      ≡ receive_loop path on fuel
          (n + length b)
          (noted on (n + length b) (written path old b (reading rest s)))
unfolding receive_loop
receive_loop_round path on fuel n old b rest s q e (lo, hi) i = rw (
  read_frame-ok s.conn max_frame_size b rest i lo hi hi,
  hashing_write-ok path old b (reading rest s) q e lo,
  notify-ok on (n + length b) (written path old b (reading rest s)),
)

pub receive_loop_end :
    (path : Text) (on : Bool) (fuel n : ℕ) (rest : Bytes) (s : Peer)
    → s.conn.incoming ≡ frame [] ++ rest
    → receive_loop path on (suc fuel) n s ≡ (ok tt, reading rest s)
unfolding receive_loop
receive_loop_end path on fuel n rest s i = rw (read_frame_end s.conn max_frame_size rest i)

pub Received-nil :
    (path : Text) (on : Bool) (n : ℕ) (old rest : Bytes) (s : Peer)
    → IsQuiet s.disk
    → s.disk.files path ≡ some old
    → Received path on n old [] rest s (reading rest s)
Received-nil path on n old rest s q e = record {
  input = refl;
  quiet = q;
  files = sym (update_same s.disk.files path _ (rw (append-nil old) e));
  absorbed = sym (append-nil s.absorbed);
  progress = sym (append-nil s.progress);
}

pub totals-append :
    (on : Bool) (n : ℕ) (b : Bytes) (bs : List Bytes) (p : List ℕ)
    → (if on then p ++ (n + length b) ∷ [] else p) ++ totals on (n + length b) bs
      ≡ p ++ totals on n (b ∷ bs)
totals-append true n b bs p = append_assoc p ((n + length b) ∷ []) (totals true (n + length b) bs)
totals-append false n b bs p = refl

pub Received-cons :
    (path : Text) (on : Bool) (n : ℕ) (old b : Bytes) (bs : List Bytes) (more rest : Bytes)
    (s t : Peer)
    → Received path on
        (n + length b)
        (old ++ b)
        bs
        rest
        (noted on (n + length b) (written path old b (reading more s)))
        t
    → Received path on n old (b ∷ bs) rest s t
Received-cons path on n old b bs more rest s t r = record {
  input = r.input;
  quiet = r.quiet;
  files =
      r.files
      ∙ update-update s.disk.files path _ _
      ∙ ap (λ c. update s.disk.files path (some c)) (append_assoc old b (concat bs));
  absorbed = r.absorbed ∙ append_assoc s.absorbed b (concat bs);
  progress = r.progress ∙ totals-append on n b bs s.progress;
}

-- On the frames of the chunks `bs` and the end marker the loop takes all of them, given a round
-- for each chunk and one for the marker.
pub receive_loop-frames :
    (path : Text) (on : Bool) (bs : List Bytes) (fuel n : ℕ) (old rest : Bytes) (s : Peer)
    → length bs < fuel
    → IsQuiet s.disk
    → s.disk.files path ≡ some old
    → All IsChunk bs
    → s.conn.incoming ≡ frames bs ++ (frame [] ++ rest)
    → (t : Peer) × (receive_loop path on fuel n s ≡ (ok tt, t)) × Received path on n old bs rest s t
receive_loop-frames path on bs zero n old rest s h q e cs i = absurd (omega arith)
receive_loop-frames path on [] (suc fuel) n old rest s h q e cs i = (
  reading rest s,
  receive_loop_end path on fuel n rest s i,
  Received-nil path on n old rest s q e,
)
receive_loop-frames path on (b ∷ bs) (suc fuel) n old rest s h q e (c, cs) i =
    let more = frames bs ++ (frame [] ++ rest) in
    let s₁ : Peer = noted on (n + length b) (written path old b (reading more s)) in
    let (t, run, r) =
      receive_loop-frames path on bs fuel (n + length b) (old ++ b) rest s₁ (omega arith)
        (spend-IsQuiet s.disk q) (update_self s.disk.files path (some (old ++ b))) cs refl in
    (
      t,
      receive_loop_round path on fuel n old b more s q e c
            (i ∙ append_assoc (frame b) (frames bs) (frame [] ++ rest))
          ∙ run,
      Received-cons path on n old b bs more rest s t r,
    )
