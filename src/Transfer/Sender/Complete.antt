-- ===== src/Transfer/Sender/Complete.antt =====
-- `Run` of the sender on a request in range, where no call fails.
use p2pft.Prelude.{
  ℕ, zero, suc, ◌≤◌, ◌<◌, ◌^◌, ◌≡◌, refl, ap, ◌∙◌, pos, false, none, some, List, [], ◌++◌, length,
  All, concat, append_assoc, length-drop, drop, Bytes, arith, ltb,
}
use p2pft.Io.Result.{ok}
use p2pft.Io.Conn.{Conn}
use p2pft.Io.Disk.{Disk, spend, read_file}
use p2pft.Io.Disk.Quiet.{IsQuiet, spend-IsQuiet, read_file-ok, tick-ok}
use p2pft.Transfer.Framing.{hash_size}
use p2pft.Transfer.Framing.RoundTrip.{frame, write_frame-ok, write-ok}
use p2pft.Transfer.Hex.{hex_encode, hex_decode_fixed, decode-encode}
use p2pft.Transfer.Protocol.{Formats, ResumeRequest, TransferStart, Digest}
use p2pft.Transfer.Protocol.Json.{write_json_frame-ok, read_json_frame-ok}
use p2pft.Transfer.Peer.{Peer}
use p2pft.Transfer.Sender.{Sender, seek, send_loop, send_file, run}
use p2pft.Transfer.Sender.Stream.{IsSmall, send_loop-frames}
use p2pft.Transfer.Receiver.Stream.{frames, totals}

-- The hash that the sender decodes is the digest that was encoded.
pub hex_decode_fixed-encode :
    (digest : Digest) (b : Bytes)
    → hex_decode_fixed (hex_encode (digest.sum b)) hash_size ≡ ok (digest.sum b)
unfolding hex_decode_fixed
hex_decode_fixed-encode digest b =
    rw (decode-encode (digest.sum b) (digest.sum_bytes b), digest.sum_length b) refl

seek-ok :
    (n : ℕ) (d : Disk)
    → IsQuiet d
    → (d' : Disk) × (seek n d ≡ (ok tt, d')) × IsQuiet d' × (d'.files ≡ d.files)
seek-ok zero d q = (d, refl, q, refl)
seek-ok (suc n) d q = (spend d, ground (arith, tick-ok d q), spend-IsQuiet d q, refl)

regroup : (a b c d e : Bytes) → (((a ++ b) ++ c) ++ d) ++ e ≡ a ++ (b ++ (c ++ (d ++ e)))
regroup a b c d e = simp append_assoc

module _ (formats : Formats) (s : Sender) where
  send_file_chain :
      (offset : ℕ) (b hash : Bytes) (p p₁ : Peer) (d : Disk)
      → read_file s.source_path p.disk ≡ (ok b, spend p.disk)
      → seek offset (spend p.disk) ≡ (ok tt, d)
      → send_loop s.on_progress (suc (length b)) (drop offset b) offset (record p { disk = d })
        ≡ (ok tt, p₁)
      → p₁.conn.room ≡ none
      → hex_decode_fixed s.sha256 hash_size ≡ ok hash
      → send_file formats s offset p ≡ (
        ok tt,
        record p₁ { conn = record p₁.conn { outgoing = (p₁.conn.outgoing ++ frame []) ++ hash } },
      )
  unfolding send_file
  send_file_chain offset b hash p p₁ d e₁ e₂ e₃ room e₄ = rw (
    e₁,
    e₂,
    e₃,
    write_frame-ok p₁.conn [] room (omega arith),
    e₄,
    write-ok (record p₁.conn { outgoing = p₁.conn.outgoing ++ frame [] }) hash room,
  )

  -- What the sender answers to a request for the bytes from `n` on, in the chunks `bs`.
  abbrev pub reply : ℕ → Bytes → List Bytes → Bytes
  reply n hash bs =
      frame (formats.start.marshal (record { start_offset = pos n }))
      ++ (frames bs ++ (frame [] ++ hash))

  -- `Run` with the file `b` on the disk, the size and hash of `b`, and a request for offset `n`.
  pub record Serves (n : ℕ) (b : Bytes) (p : Peer) : Type 0 where
    pub quiet : IsQuiet p.disk
    pub room : p.conn.room ≡ none
    pub source : p.disk.files s.source_path ≡ some b
    pub size : s.size ≡ pos (length b)
    pub sha256 : s.sha256 ≡ hex_encode (formats.digest.sum b)
    pub offset : n ≤ length b
    pub int64 : length b < 2 ^ 63
    pub request :
        p.conn.incoming ≡ frame (formats.request.marshal (record { offset = pos n })) ++ []

  run_start :
      (n : ℕ) (b : Bytes) (p : Peer)
      → Serves n b p
      → run formats s p
        ≡ send_file formats s n (record p {
          conn = record p.conn {
            incoming = [];
            outgoing =
                p.conn.outgoing ++ frame (formats.start.marshal (record { start_offset = pos n }));
          };
        })
  unfolding run
  run_start n b p h =
      let req : ResumeRequest = record { offset = pos n } in
      let start : TransferStart = record { start_offset = pos n } in
      let small : n < 2 ^ 63 = omega (arith, h.offset, h.int64) in
      let c : Conn = record p.conn { incoming = [] } in
      rw (
        read_json_frame-ok formats.request req p.conn [] small (formats.request_size req small)
            h.request,
        h.size,
        in_range 0 n (omega arith),
        in_range n (length b) h.offset,
        write_json_frame-ok formats.start start c h.room (formats.start_size start small).1,
      )
    where
      in_range : (n m : ℕ) → n ≤ m → ltb m n ≡ false
      in_range n m h = ground arith

  -- Given a request in range, and where no call fails, the sender answers with the offset, the
  -- rest of the file in chunks of 1 to 64 KiB, the end marker and the digest of the whole file.
  pub run-ok :
      (n : ℕ) (b : Bytes) (p : Peer)
      → Serves n b p
      → (bs : List Bytes) × (concat bs ≡ drop n b)
        × All IsSmall bs
        × ((t : Peer) × (run formats s p ≡ (ok tt, t))
            × (t.conn.outgoing ≡ p.conn.outgoing ++ reply n (formats.digest.sum b) bs)
            × (t.progress ≡ p.progress ++ totals s.on_progress n bs))
  run-ok n b p h =
      let p₀ : Peer = record p {
        conn = record p.conn {
          incoming = [];
          outgoing =
              p.conn.outgoing ++ frame (formats.start.marshal (record { start_offset = pos n }));
        };
      } in
      let (d, e₂, q₂, k₂) = seek-ok n (spend p.disk) (spend-IsQuiet p.disk h.quiet) in
      let fuel : length (drop n b) < suc (length b) = omega (arith, length-drop n b) in
      let (bs, whole, small, (p₁, e₃, sent)) =
        send_loop-frames s.on_progress (suc (length b)) (drop n b) n (record p₀ { disk = d }) fuel
          q₂ h.room in
      (
        bs,
        whole,
        small,
        (
          record p₁ {
            conn = record p₁.conn {
              outgoing = (p₁.conn.outgoing ++ frame []) ++ formats.digest.sum b;
            };
          },
          run_start n b p h
              ∙ send_file_chain n b (formats.digest.sum b) p₀ p₁ d
                  (read_file-ok p.disk h.quiet s.source_path b h.source) e₂ e₃
                  (ap (λ (c : Conn). c.room) sent.output ∙ h.room)
                  (rw h.sha256 (hex_decode_fixed-encode formats.digest b)),
          ap (λ (c : Conn). (c.outgoing ++ frame []) ++ formats.digest.sum b) sent.output
              ∙ regroup p.conn.outgoing
                  (frame (formats.start.marshal (record { start_offset = pos n }))) (frames bs)
                  (frame []) (formats.digest.sum b),
          sent.progress,
        ),
      )
