-- ===== src/Transfer/Receiver/Retry.antt =====
-- `Run` of the receiver from the check of the partial file on, where the sender breaks off anywhere
-- and no call on the disk fails.
use p2pft.Prelude.{
  ℕ, ◌<◌, ◌^◌, ◌≡◌, refl, sym, ap, ◌∙◌, ◌⊎◌, inl, inr, pos, Option, none, List, [], ◌++◌, length,
  All, concat, Bytes, Text, String,
}
use p2pft.Io.Result.{Result, Error, ok, err, wrap}
use p2pft.Io.Conn.{Conn}
use p2pft.Io.Disk.{Disk}
use p2pft.Io.Disk.Quiet.{IsQuiet}
use p2pft.Transfer.Framing.{max_frame_size, read_frame}
use p2pft.Transfer.Framing.RoundTrip.{frame}
use p2pft.Transfer.Framing.Cut.{prefix_cases, read_frame-short}
use p2pft.Transfer.Protocol.{Formats, ResumeRequest, IsMeta, read_json_frame}
use p2pft.Transfer.Protocol.Json.{write_json_frame-ok}
use p2pft.Transfer.Peer.{Peer}
use p2pft.Transfer.Resume.{partial_path, meta_path, check_partial}
use p2pft.Transfer.Resume.Check.{resumable, check_partial-resumable}
use p2pft.Transfer.Resume.Dropped.{check_partial-drops}
use p2pft.Transfer.Receiver.{Receiver, run}
use p2pft.Transfer.Receiver.Stream.{frames, IsChunk}
use p2pft.Transfer.Receiver.Resumed.{Prior-of, stream, run_start, delivered-congr, prior_of}
use p2pft.Transfer.Receiver.Complete.{delivered}
use p2pft.Transfer.Receiver.Again.{Again, Arrived, Lost}
use p2pft.Transfer.Receiver.Interrupted.{receive_file-cut}

module _ (formats : Formats) (r : Receiver) where
  -- Nothing can be resumed without a sidecar, so the whole is to come.
  Again-dropped :
      (files : Text → Option Bytes) (rest : Bytes) (d : Disk)
      → IsQuiet d
      → (d.files ≡ files) ⊎ (d.files (meta_path r.dest) ≡ none)
      → Again formats r (resumable formats r.dest r.size r.sha256 files ++ rest) d
  Again-dropped files rest d q (inl same) = record {
    quiet = q;
    rest = rest;
    resumes =
        ap (λ (f : Text → Option Bytes). resumable formats r.dest r.size r.sha256 f ++ rest)
          (sym same);
  }
  Again-dropped files rest d q (inr gone) = record {
    quiet = q;
    rest = resumable formats r.dest r.size r.sha256 files ++ rest;
    resumes = rw gone refl;
  }

  no_start :
      (n : ℕ) (s : Peer) (d : Disk) (x : Error) (c : Conn)
      → n < 2 ^ 63
      → s.conn.room ≡ none
      → check_partial formats r.dest r.size r.sha256 s.disk ≡ (ok n, d)
      → (msg : String)
      → read_frame max_frame_size (record s.conn {
        outgoing = s.conn.outgoing ++ frame (formats.request.marshal (record { offset = pos n }));
      })
        ≡ (err (wrap msg x), c)
      → run formats r s
        ≡ (err (wrap "read transfer_start" (wrap msg x)), record s { conn = c; disk = d })
  unfolding run read_json_frame
  no_start n s d x c small room e msg k =
      let req : ResumeRequest = record { offset = pos n } in
      rw
        (
          e,
          write_json_frame-ok formats.request req s.conn room (formats.request_size req small).1,
          k,
        )
        refl

  from_start :
      (whole : Bytes) (f g : Text → Option Bytes) (x y : Result (Unit {0}) × Peer)
      → y ≡ x
      → delivered formats r f whole ≡ delivered formats r g whole
      → Arrived formats r whole f x ⊎ Lost formats r whole x
      → Arrived formats r whole g y ⊎ Lost formats r whole y
  from_start whole f g x y e same (inl a) =
      inl (record { end = a.end; ran = e ∙ a.ran; delivers = a.delivers ∙ same })
  from_start whole f g x y e same (inr l) =
      inr (record { why = l.why; end = l.end; ran = e ∙ l.ran; again = l.again })

  -- The receiver asks, and what comes of the answer breaks off anywhere.
  pub run-cut :
      (bs : List Bytes) (lost : Bytes) (s : Peer)
      → IsQuiet s.disk
      → s.conn.room ≡ none
      → IsMeta (record { size = r.size; sha256 = r.sha256 })
      → length (prior_of formats r s) < 2 ^ 63
      → All IsChunk bs
      → s.conn.incoming ++ lost ≡ stream formats r (prior_of formats r s) bs
      → Arrived formats r (prior_of formats r s ++ concat bs) s.disk.files (run formats r s)
        ⊎ Lost formats r (prior_of formats r s ++ concat bs) (run formats r s)
  run-cut bs lost s q room meta small cs i =
      let prior = prior_of formats r s in
      let n = length prior in
      let start = formats.start.marshal (record { start_offset = pos n }) in
      let rest = frames bs ++ (frame [] ++ formats.digest.sum (prior ++ concat bs)) in
      let asked : Conn = record s.conn {
        outgoing = s.conn.outgoing ++ frame (formats.request.marshal (record { offset = pos n }));
      } in
      let (d, e, q₁, others, p) = check_partial-resumable formats r.dest r.size r.sha256 s.disk q in
      elim (prefix_cases (frame start) rest s.conn.incoming lost i) [
        | inl short ↦
            let fits = (formats.start_size (record { start_offset = pos n }) small).1 in
            let (msg, x, k) =
              read_frame-short max_frame_size start rest lost asked fits fits i short in
            inr (record {
              why = wrap "read transfer_start" (wrap msg x);
              end = record s { conn = record asked { incoming = [] }; disk = d };
              ran = no_start n s d x (record asked { incoming = [] }) small room e msg k;
              again = Again-dropped s.disk.files (concat bs) d q₁ (
                  rw (sym (ap (λ (y : Result ℕ × Disk). y.1.files) e))
                    (check_partial-drops formats r.dest r.size r.sha256 s.disk q));
            })
        | inr (more, at, later) ↦
            from_start (prior ++ concat bs) d.files s.disk.files _ (run formats r s)
              (run_start formats r n s d more small room e at)
              (delivered-congr formats r d.files s.disk.files (prior ++ concat bs) others)
              (receive_file-cut formats r n prior bs lost
                (record s { conn = record asked { incoming = more }; disk = d }) q₁ refl
                (Prior-of d (partial_path r.dest) prior p) meta cs later)
      ]
