-- ===== src/Transfer/Receiver/Resumed.antt =====
-- `Run` of the receiver from the check of the partial file on, where no call fails.
use p2pft.Prelude.{
  ℕ, ◌<◌, ◌^◌, ◌≡◌, refl, sym, ap, ◌∙◌, ◌⊎◌, inl, inr, pos, Option, none, some, List, [], ◌∷◌, ◌++◌,
  length, All, concat, Bytes, Text, arith, fun_ext, ==_iff,
}
use p2pft.Io.Result.{ok}
use p2pft.Io.Disk.{Disk, update}
use p2pft.Io.Disk.Quiet.{IsQuiet}
use p2pft.Transfer.Framing.RoundTrip.{frame}
use p2pft.Transfer.Protocol.{Formats, ResumeRequest, TransferStart}
use p2pft.Transfer.Protocol.Json.{write_json_frame-ok, read_json_frame-ok}
use p2pft.Transfer.Peer.{Peer}
use p2pft.Transfer.Resume.{partial_path, meta_path, check_partial}
use p2pft.Transfer.Resume.Check.{resumable, besides, check_partial-resumable}
use p2pft.Transfer.Receiver.{Receiver, receive_file, run}
use p2pft.Transfer.Receiver.Stream.{frames, IsChunk, totals}
use p2pft.Transfer.Receiver.Opened.{Prior}
use p2pft.Transfer.Receiver.Complete.{delivered, receive_file-ok}

pub Prior-of :
    (d : Disk) (path : Text) (prior : Bytes)
    → (prior ≡ []) ⊎ (d.files path ≡ some prior)
    → Prior d path (length prior) prior
Prior-of d path [] h = inl (refl, refl)
Prior-of d path (x ∷ xs) (inl e) = absurd (omega (arith, ap length e))
Prior-of d path (x ∷ xs) (inr e) = inr (omega arith, refl, e)

module _ (formats : Formats) (r : Receiver) where
  -- What is received from the sender: the offset, the chunks `bs`, the end marker and the digest.
  abbrev pub stream : Bytes → List Bytes → Bytes
  stream prior bs =
      frame (formats.start.marshal (record { start_offset = pos (length prior) }))
      ++ (frames bs ++ (frame [] ++ formats.digest.sum (prior ++ concat bs)))

  pub run_start :
      (n : ℕ) (s : Peer) (d : Disk) (rest : Bytes)
      → n < 2 ^ 63
      → s.conn.room ≡ none
      → check_partial formats r.dest r.size r.sha256 s.disk ≡ (ok n, d)
      → s.conn.incoming ≡ frame (formats.start.marshal (record { start_offset = pos n })) ++ rest
      → run formats r s
        ≡ receive_file formats r n (record s {
          conn = record s.conn {
            incoming = rest;
            outgoing =
                s.conn.outgoing ++ frame (formats.request.marshal (record { offset = pos n }));
          };
          disk = d;
        })
  unfolding run
  run_start n s d rest small room e i =
      let req : ResumeRequest = record { offset = pos n } in
      let start : TransferStart = record { start_offset = pos n } in
      rw (
        e,
        write_json_frame-ok formats.request req s.conn room (formats.request_size req small).1,
        read_json_frame-ok formats.start start
            (record s.conn { outgoing = s.conn.outgoing ++ frame (formats.request.marshal req) })
            rest small (formats.start_size start small) i,
        (==_iff n n).1 refl,
      )

  delivered-besides :
      (f : Text → Option Bytes) (b : Bytes)
      → delivered formats r f b
        ≡ update
            (update (besides formats r.dest r.size r.sha256 f) r.dest (some b))
            (meta_path r.dest)
            none
  delivered-besides f b = fun_ext (λ q. ground arith)

  pub delivered-congr :
      (f g : Text → Option Bytes) (b : Bytes)
      → besides formats r.dest r.size r.sha256 f ≡ besides formats r.dest r.size r.sha256 g
      → delivered formats r f b ≡ delivered formats r g b
  delivered-congr f g b h =
      delivered-besides f b
      ∙ ap (λ (k : Text → Option Bytes). update (update k r.dest (some b)) (meta_path r.dest) none)
          h
      ∙ sym (delivered-besides g b)

  abbrev pub prior_of : Peer → Bytes
  prior_of s = resumable formats r.dest r.size r.sha256 s.disk.files

  -- Where no call fails and the stream answers the receiver's request and ends with the digest of
  -- the whole, the receiver succeeds, the content is at the destination, and the partial file and
  -- its sidecar are gone.
  pub run-ok :
      (bs : List Bytes) (s : Peer)
      → IsQuiet s.disk
      → s.conn.room ≡ none
      → length (prior_of s) < 2 ^ 63
      → All IsChunk bs
      → s.conn.incoming ≡ stream (prior_of s) bs
      → (t : Peer) × (run formats r s ≡ (ok tt, t))
        × (t.disk.files ≡ delivered formats r s.disk.files (prior_of s ++ concat bs))
        × (t.progress ≡ s.progress ++ totals r.on_progress (length (prior_of s)) bs)
        × (t.conn.outgoing
            ≡ s.conn.outgoing
              ++ frame (formats.request.marshal (record { offset = pos (length (prior_of s)) })))
  run-ok bs s q room small cs i =
      let prior = prior_of s in
      let rest = frames bs ++ (frame [] ++ formats.digest.sum (prior ++ concat bs)) in
      let (d, e, q₁, others, p) = check_partial-resumable formats r.dest r.size r.sha256 s.disk q in
      let (t, k, v) =
        receive_file-ok formats r (length prior) prior bs
          (record s {
            conn = record s.conn {
              incoming = rest;
              outgoing =
                  s.conn.outgoing
                  ++ frame (formats.request.marshal (record { offset = pos (length prior) }));
            };
            disk = d;
          })
          q₁ refl (Prior-of d (partial_path r.dest) prior p) cs refl in
      (
        t,
        run_start (length prior) s d rest small room e i ∙ k,
        v.files ∙ delivered-congr d.files s.disk.files (prior ++ concat bs) others,
        v.progress,
        v.output,
      )
