-- ===== src/Transfer/Sender/Stream.antt =====
-- What the loop of the sender's `Run` writes, where no call fails.
use p2pft.Prelude.{
  ℕ, zero, suc, ◌+◌, ◌≤◌, ◌<◌, ◌≡◌, refl, sym, ap, ◌∙◌, Bool, false, none, List, [], ◌∷◌, ◌++◌,
  length, All, concat, append-nil, length-append, append_assoc, length-take, take-append-drop, take,
  drop, Bytes, arith, ◌==◌,
}
use p2pft.Io.Result.{Result, ok}
use p2pft.Io.Disk.{Event, fails, short, runs, Disk, spend, next_event}
use p2pft.Io.Disk.Quiet.{Runs, IsQuiet, spend-IsQuiet, next_event-Runs}
use p2pft.Transfer.Framing.{default_chunk_size}
use p2pft.Transfer.Framing.RoundTrip.{frame, write_frame-ok}
use p2pft.Transfer.Peer.{Peer}
use p2pft.Transfer.Sender.{read_count, read_event, read_chunk, send_chunk, send_loop}
use p2pft.Transfer.Receiver.Stream.{frames, totals, noted, notify-ok, totals-append}

read_count_bounds : (e : Event) → (0 < read_count e) × (read_count e ≤ default_chunk_size)
read_count_bounds (short zero) = omega arith
read_count_bounds (short (suc k)) = omega arith
read_count_bounds runs = omega arith
read_count_bounds (fails k) = omega arith

read_event-ok :
    (e : Event) (rest : Bytes)
    → Runs e
    → read_event e rest ≡ ok (take (read_count e) rest, drop (read_count e) rest)
read_event-ok (fails k) rest h = absurd h
read_event-ok runs rest h = refl
read_event-ok (short zero) rest h = refl
read_event-ok (short (suc k)) rest h = refl

read_chunk-ok :
    (rest : Bytes) (d : Disk)
    → IsQuiet d
    → read_chunk rest d ≡ (
      ok (
        take (read_count (next_event d.events)) rest,
        drop (read_count (next_event d.events)) rest,
      ),
      spend d,
    )
unfolding read_chunk
read_chunk-ok rest d q = rw (read_event-ok (next_event d.events) rest (next_event-Runs d.events q))

-- What the loop leaves behind when it has sent the chunks `bs`.
pub record Sent (on : Bool) (n : ℕ) (bs : List Bytes) (s t : Peer) : Type 0 where
  pub output : t.conn ≡ record s.conn { outgoing = s.conn.outgoing ++ frames bs }
  pub quiet : IsQuiet t.disk
  pub files : t.disk.files ≡ s.disk.files
  pub progress : t.progress ≡ s.progress ++ totals on n bs

-- The state behind one chunk.
abbrev sent_chunk : Bool → ℕ → Bytes → Peer → Peer
sent_chunk on n b s = noted on (n + length b) (record s {
  conn = record s.conn { outgoing = s.conn.outgoing ++ frame b };
  disk = spend s.disk;
})

send_chunk-ok :
    (on : Bool) (n : ℕ) (next : Bytes → ℕ → Peer → Result (Unit {0}) × Peer) (b rest : Bytes)
    (s : Peer)
    → s.conn.room ≡ none
    → 0 < length b
    → length b ≤ default_chunk_size
    → send_chunk on n next (b, rest) s
      ≡ next rest (n + length b) (
          noted on
            (n + length b)
            (record s { conn = record s.conn { outgoing = s.conn.outgoing ++ frame b } }))
send_chunk-ok on n next b rest s room lo hi = rw (
  nonzero b lo,
  write_frame-ok s.conn b room (omega arith),
  notify-ok on (n + length b)
      (record s { conn = record s.conn { outgoing = s.conn.outgoing ++ frame b } }),
)
  where
    nonzero : (b : Bytes) → 0 < length b → (length b == 0) ≡ false
    nonzero b h = ground arith

send_loop_round :
    (on : Bool) (fuel n : ℕ) (x : ℕ) (xs : Bytes) (s : Peer)
    → IsQuiet s.disk
    → s.conn.room ≡ none
    → (b rest : Bytes) × (b ++ rest ≡ x ∷ xs)
      × (0 < length b)
      × (length b ≤ default_chunk_size)
      × (send_loop on (suc fuel) (x ∷ xs) n s
          ≡ send_loop on fuel rest (n + length b) (sent_chunk on n b s))
unfolding send_loop
send_loop_round on fuel n x xs s q room =
    let k = read_count (next_event s.disk.events) in
    let b = take k (x ∷ xs) in
    let rest = drop k (x ∷ xs) in
    let lo : 0 < length b =
      omega (arith, length-take k (x ∷ xs), read_count_bounds (next_event s.disk.events)) in
    let hi : length b ≤ default_chunk_size =
      omega (arith, length-take k (x ∷ xs), read_count_bounds (next_event s.disk.events)) in
    (
      b,
      rest,
      take-append-drop k (x ∷ xs),
      lo,
      hi,
      rw (read_chunk-ok (x ∷ xs) s.disk q) (
          send_chunk-ok on n (send_loop on fuel) b rest (record s { disk = spend s.disk }) room lo
            hi),
    )

send_loop_end :
    (on : Bool) (fuel n : ℕ) (s : Peer)
    → IsQuiet s.disk
    → send_loop on (suc fuel) [] n s ≡ (ok tt, record s { disk = spend s.disk })
unfolding send_loop
send_loop_end on fuel n s q =
    rw (read_chunk-ok [] s.disk q, take-nil (read_count (next_event s.disk.events)))
  where
    take-nil : (k : ℕ) → take {A = ℕ} k [] ≡ []
    take-nil zero = refl
    take-nil (suc k) = refl

Sent-nil :
    (on : Bool) (n : ℕ) (s : Peer)
    → IsQuiet s.disk
    → Sent on n [] s (record s { disk = spend s.disk })
Sent-nil on n s q = record {
  output = ap (λ b. record s.conn { outgoing = b }) (sym (append-nil s.conn.outgoing));
  quiet = spend-IsQuiet s.disk q;
  files = refl;
  progress = sym (append-nil s.progress);
}

Sent-cons :
    (on : Bool) (n : ℕ) (b : Bytes) (bs : List Bytes) (s t : Peer)
    → Sent on (n + length b) bs (sent_chunk on n b s) t
    → Sent on n (b ∷ bs) s t
Sent-cons on n b bs s t r = record {
  output =
      r.output
      ∙ ap (λ (p : Bytes). record s.conn { outgoing = p })
          (append_assoc s.conn.outgoing (frame b) (frames bs));
  quiet = r.quiet;
  files = r.files;
  progress = r.progress ∙ totals-append on n b bs s.progress;
}

-- A chunk of the sender is not empty and no longer than its buffer.
abbrev pub IsSmall : Bytes → Type 0
IsSmall b = (0 < length b) × (length b ≤ default_chunk_size)

-- With more rounds than bytes the loop sends all of `rest`, cut into chunks.
pub send_loop-frames :
    (on : Bool) (fuel : ℕ) (rest : Bytes) (n : ℕ) (s : Peer)
    → length rest < fuel
    → IsQuiet s.disk
    → s.conn.room ≡ none
    → (bs : List Bytes) × (concat bs ≡ rest)
      × All IsSmall bs
      × ((t : Peer) × (send_loop on fuel rest n s ≡ (ok tt, t)) × Sent on n bs s t)
send_loop-frames on zero rest n s h q room = absurd (omega arith)
send_loop-frames on (suc fuel) [] n s h q room = (
  [],
  refl,
  tt,
  (record s { disk = spend s.disk }, send_loop_end on fuel n s q, Sent-nil on n s q),
)
send_loop-frames on (suc fuel) (x ∷ xs) n s h q room =
    let (b, rest, cut, lo, hi, e) = send_loop_round on fuel n x xs s q room in
    let less : length rest < fuel = omega (arith, ap length cut, length-append b rest) in
    let (bs, whole, small, (t, run, r)) =
      send_loop-frames on fuel rest (n + length b) (sent_chunk on n b s) less
        (spend-IsQuiet s.disk q) room in
    (
      b ∷ bs,
      ap (λ (p : Bytes). b ++ p) whole ∙ cut,
      ((lo, hi), small),
      (t, e ∙ run, Sent-cons on n b bs s t r),
    )
