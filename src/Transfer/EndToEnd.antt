-- ===== src/Transfer/EndToEnd.antt =====
-- A sender and a receiver, each of which reads what the other wrote.
use p2pft.Prelude.{
  ℕ, ◌≤◌, ◌<◌, ◌^◌, ◌≡◌, refl, sym, ap, ◌∙◌, pos, none, some, List, [], ◌∷◌, ◌++◌, length,
  length-append, drop, drop-append, All, concat, append-nil, Bytes, arith,
}
use p2pft.Io.Result.{ok}
use p2pft.Io.Conn.{closed}
use p2pft.Io.Disk.{update}
use p2pft.Io.Disk.Quiet.{IsQuiet}
use p2pft.Transfer.Framing.RoundTrip.{frame}
use p2pft.Transfer.Hex.{hex_encode}
use p2pft.Transfer.Protocol.{Formats}
use p2pft.Transfer.Peer.{Peer}
use p2pft.Transfer.Resume.{partial_path, meta_path}
use p2pft.Transfer.Resume.Check.{resumable}
use p2pft.Transfer.Sender
use p2pft.Transfer.Sender.{Sender}
use p2pft.Transfer.Sender.Stream.{IsSmall}
use p2pft.Transfer.Sender.Complete
use p2pft.Transfer.Receiver
use p2pft.Transfer.Receiver.{Receiver}
use p2pft.Transfer.Receiver.Stream.{IsChunk}
use p2pft.Transfer.Receiver.Complete.{delivered}
use p2pft.Transfer.Receiver.Resumed

-- A side with a sound connection on which it will read `x` and nothing more.
abbrev pub linked : Peer → Bytes → Peer
linked p x = record p {
  conn = record { incoming = x; ending = closed; outgoing = []; room = none };
}

small-chunks : (bs : List Bytes) → All IsSmall bs → All IsChunk bs
small-chunks [] h = tt
small-chunks (b ∷ bs) ((lo, hi), h) = ((lo, omega arith), small-chunks bs h)

module _ (formats : Formats) (s : Sender) (r : Receiver) where
  -- The sender has the file `b` and announces its size and hash; the receiver can resume from a
  -- prefix of `b`, which may be empty; no call of either side fails.
  pub record Ready (b rest : Bytes) (sp rp : Peer) : Type 0 where
    pub sender_quiet : IsQuiet sp.disk
    pub receiver_quiet : IsQuiet rp.disk
    pub source : sp.disk.files s.source_path ≡ some b
    pub size : s.size ≡ pos (length b)
    pub sha256 : s.sha256 ≡ hex_encode (formats.digest.sum b)
    pub int64 : length b < 2 ^ 63
    pub resumes : b ≡ resumable formats r.dest r.size r.sha256 rp.disk.files ++ rest

  -- Both runs end without an error, each having read what the other wrote.
  pub record Exchange (sp rp ts tr : Peer) : Type 0 where
    pub sends : Sender.run formats s (linked sp tr.conn.outgoing) ≡ (ok tt, ts)
    pub receives : Receiver.run formats r (linked rp ts.conn.outgoing) ≡ (ok tt, tr)

  serves :
      (n : ℕ) (b : Bytes) (sp : Peer) (rest : Bytes) (rp : Peer)
      → Ready b rest sp rp
      → n ≤ length b
      → Sender.Complete.Serves formats s n b
          (linked sp (frame (formats.request.marshal (record { offset = pos n }))))
  serves n b sp rest rp h fits = record {
    quiet = h.sender_quiet;
    room = refl;
    source = h.source;
    size = h.size;
    sha256 = h.sha256;
    offset = fits;
    int64 = h.int64;
    request = sym (append-nil (frame (formats.request.marshal (record { offset = pos n }))));
  }

  -- The frame of the receiver's request.
  abbrev pub asks : Peer → Bytes
  asks rp = frame (
      formats.request.marshal
        (record { offset = pos (length (resumable formats r.dest r.size r.sha256 rp.disk.files)) }))

  -- What the sender writes, in chunks that complete the prefix of the receiver.
  pub record Sent (b : Bytes) (sp rp ts : Peer) : Type 0 where
    pub chunks : List Bytes
    pub small : All IsChunk chunks
    pub all : resumable formats r.dest r.size r.sha256 rp.disk.files ++ concat chunks ≡ b
    pub ran : Sender.run formats s (linked sp (asks rp)) ≡ (ok tt, ts)
    pub output :
        ts.conn.outgoing
        ≡ Receiver.Resumed.stream formats r
            (resumable formats r.dest r.size r.sha256 rp.disk.files)
            chunks

  pub sends-Sent :
      (b rest : Bytes) (sp rp : Peer) → Ready b rest sp rp → (ts : Peer) × Sent b sp rp ts
  sends-Sent b rest sp rp h =
      let prior = resumable formats r.dest r.size r.sha256 rp.disk.files in
      let n = length prior in
      let fits : n ≤ length b = omega (arith, ap length h.resumes, length-append prior rest) in
      let (bs, whole, small, (ts, e, out, _)) =
        Sender.Complete.run-ok formats s n b (linked sp (asks rp)) (serves n b sp rest rp h fits) in
      let all : prior ++ concat bs ≡ b =
        ap (λ (p : Bytes). prior ++ p)
          (whole ∙ ap (drop n) h.resumes ∙ drop-append n prior rest refl)
        ∙ sym h.resumes in
      (
        ts,
        record {
          chunks = bs;
          small = small-chunks bs small;
          all = all;
          ran = e;
          output =
              out
              ∙ ap (λ (p : Bytes). Sender.Complete.reply formats s n (formats.digest.sum p) bs)
                  (sym all);
        },
      )

  pub prior-int64 :
      (b rest : Bytes) (sp rp : Peer)
      → Ready b rest sp rp
      → length (resumable formats r.dest r.size r.sha256 rp.disk.files) < 2 ^ 63
  prior-int64 b rest sp rp h =
      let prior = resumable formats r.dest r.size r.sha256 rp.disk.files in
      omega (arith, h.int64, ap length h.resumes, length-append prior rest)

  -- If a sender has a file and announces its size and hash, the receiver can resume from a prefix
  -- of that file (from nothing, if it has no partial file for the transfer), and no call fails,
  -- then the two sides finish without an error: the file is at the destination, the partial file
  -- and its sidecar are gone, and no other file of the receiver has changed.
  pub transfer-delivers :
      (b rest : Bytes) (sp rp : Peer)
      → Ready b rest sp rp
      → (ts : Peer) × (tr : Peer) × Exchange sp rp ts tr
        × (tr.disk.files
            ≡ update
                (update (update rp.disk.files (partial_path r.dest) none) r.dest (some b))
                (meta_path r.dest)
                none)
  transfer-delivers b rest sp rp h =
      let (ts, w) = sends-Sent b rest sp rp h in
      let (tr, k, files, _, asked) =
        Receiver.Resumed.run-ok formats r w.chunks (linked rp ts.conn.outgoing) h.receiver_quiet
          refl (prior-int64 b rest sp rp h) w.small w.output in
      (
        ts,
        tr,
        record { sends = rw asked w.ran; receives = k },
        files ∙ ap (delivered formats r rp.disk.files) w.all,
      )
