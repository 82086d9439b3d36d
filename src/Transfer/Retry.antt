-- ===== src/Transfer/Retry.antt =====
-- A transfer whose connection breaks off, and the attempt behind it.
use p2pft.Prelude.{
  false, Bool-cases, eqb_text, eqb_text→eq, eqb_text_refl, ◌≡◌, ◌≢◌, refl, sym, ap, ◌∙◌, ◌⊎◌, inl,
  inr, Option, none, some, [], ◌++◌, Bytes, Text,
}
use p2pft.Io.Result.{Result, Error, ok, err}
use p2pft.Io.Conn.{Ending}
use p2pft.Io.Disk.{update}
use p2pft.Io.Disk.Quiet.{IsQuiet}
use p2pft.Transfer.Protocol.{Formats, IsMeta}
use p2pft.Transfer.Peer.{Peer}
use p2pft.Transfer.Resume.{partial_path, meta_path}
use p2pft.Transfer.Resume.Check.{besides, besides-congr}
use p2pft.Transfer.Sender
use p2pft.Transfer.Sender.{Sender}
use p2pft.Transfer.Receiver
use p2pft.Transfer.Receiver.{Receiver}
use p2pft.Transfer.Receiver.Atomic.{run-atomic, run-keeps_others}
use p2pft.Transfer.Receiver.Again.{Again}
use p2pft.Transfer.Receiver.Resumed
use p2pft.Transfer.Receiver.Retry.{run-cut}
use p2pft.Transfer.EndToEnd.{
  linked, asks, Ready, Exchange, sends-Sent, prior-int64, transfer-delivers,
}

eqb_text→ne : (a q : Text) → eqb_text a q ≡ false → a ≢ q
eqb_text→ne a q h e = cc (h, e, eqb_text_refl a)

-- The receiver's side, on which `got` can be read before the connection ends.
abbrev broken : Peer → Bytes → Ending → Peer
broken p got how = record p {
  conn = record { incoming = got; ending = how; outgoing = []; room = none };
}

module _ (formats : Formats) (s : Sender) (r : Receiver) where
  -- A receiver that has failed has changed its partial file and its sidecar only.
  failed-besides :
      (p : Peer) (e : Error) (t : Peer)
      → Receiver.run formats r p ≡ (err e, t)
      → besides formats r.dest r.size r.sha256 t.disk.files
        ≡ besides formats r.dest r.size r.sha256 p.disk.files
  failed-besides p e t h =
      besides-congr formats r.dest r.size r.sha256 t.disk.files p.disk.files (λ q part meta.
        elim (Bool-cases (eqb_text r.dest q)) [
          | inl at_dest ↦
              ap t.disk.files (sym (eqb_text→eq r.dest q at_dest))
              ∙ run-atomic formats r p e t h
              ∙ ap p.disk.files (eqb_text→eq r.dest q at_dest)
          | inr other ↦
              ap (λ (x : Result (Unit {0}) × Peer). x.1.disk.files q) (sym h)
              ∙ run-keeps_others formats r p q (eqb_text→ne r.dest q other)
                  (eqb_text→ne (partial_path r.dest) q part) (eqb_text→ne (meta_path r.dest) q meta)
        ])

  -- The receiver has the file.
  abbrev Has : Bytes → (Text → Option Bytes) → Peer → Type 0
  Has b files t =
      t.disk.files
      ≡ update (update (update files (partial_path r.dest) none) r.dest (some b)) (meta_path r.dest)
          none

  ready_again :
      (b rest : Bytes) (sp rp next t : Peer)
      → Ready formats s r b rest sp rp
      → IsQuiet next.disk
      → next.disk.files s.source_path ≡ some b
      → (a : Again formats r b t.disk) → Ready formats s r b a.rest next t
  ready_again b rest sp rp next t h q f a = record {
    sender_quiet = q;
    receiver_quiet = a.quiet;
    source = f;
    size = h.size;
    sha256 = h.sha256;
    int64 = h.int64;
    resumes = a.resumes;
  }

  -- If a sender has a file and announces its size and hash, as an int64 and ASCII text, the
  -- receiver can resume from a prefix of that file, no call on a disk fails, and the connection
  -- ends anywhere in what the sender writes, with or without an error, then the receiver gets the
  -- file, or its run ends with an error and the next transfer to it, from a sender's side that has
  -- the file, ends without an error on both sides. In both cases the file is at the destination,
  -- the partial file and its sidecar are gone, and no other file has changed since before the
  -- first attempt.
  pub retry-delivers :
      (b rest : Bytes) (sp rp ts : Peer) (got lost : Bytes) (how : Ending) (next : Peer)
      → Ready formats s r b rest sp rp
      → IsMeta (record { size = r.size; sha256 = r.sha256 })
      → Sender.run formats s (linked sp (asks formats s r rp)) ≡ (ok tt, ts)
      → got ++ lost ≡ ts.conn.outgoing
      → IsQuiet next.disk
      → next.disk.files s.source_path ≡ some b
      → ((t : Peer) × (Receiver.run formats r (broken rp got how) ≡ (ok tt, t))
          × Has b rp.disk.files t)
        ⊎ ((e : Error) × (t : Peer) × (Receiver.run formats r (broken rp got how) ≡ (err e, t))
            × ((ts' : Peer) × (tr' : Peer) × Exchange formats s r next t ts' tr'
                × Has b rp.disk.files tr'))
  retry-delivers b rest sp rp ts got lost how next h meta run cut q f =
      let (t, w) = sends-Sent formats s r b rest sp rp h in
      let out : ts.conn.outgoing ≡ t.conn.outgoing =
        ap (λ (x : Result (Unit {0}) × Peer). x.1.conn.outgoing) (sym run ∙ w.ran) in
      elim (rw w.all at (
        run-cut formats r w.chunks lost (broken rp got how) h.receiver_quiet refl meta
          (prior-int64 formats s r b rest sp rp h) w.small (cut ∙ out ∙ w.output))) [
            | inl a ↦ inl (a.end, a.ran, a.delivers)
            | inr l ↦
                let (ts', tr', e, files) =
                  transfer-delivers formats s r b l.again.rest next l.end
                    (ready_again b rest sp rp next l.end h q f l.again) in
                inr (
                  l.why,
                  l.end,
                  l.ran,
                  (
                    ts',
                    tr',
                    e,
                    files
                        ∙ Receiver.Resumed.delivered-congr formats r l.end.disk.files rp.disk.files
                            b (failed-besides (broken rp got how) l.why l.end l.ran),
                  ),
                )
          ]
