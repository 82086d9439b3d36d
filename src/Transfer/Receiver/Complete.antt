-- ===== src/Transfer/Receiver/Complete.antt =====
-- `Run` of the receiver on a stream that ends with the right digest, where no call fails.
use p2pft.Prelude.{
  ℕ, suc, ◌<◌, ◌≡◌, refl, sym, ap, ◌∙◌, Bool, none, some, List, [], ◌∷◌, ◌++◌, length, All, concat,
  append-nil, length-append, Bytes, Text, arith, eqb_text_refl, fun_ext, Option,
}
use p2pft.Io.Result.{Result, ok}
use p2pft.Io.Conn.{Conn}
use p2pft.Io.Disk.{Disk, update, spend}
use p2pft.Io.Disk.Quiet.{IsQuiet, spend-IsQuiet, update_self, tick-ok, rename-ok, remove-ok}
use p2pft.Transfer.Framing.{put_uint32}
use p2pft.Transfer.Framing.RoundTrip.{frame, read_full-append}
use p2pft.Transfer.Protocol.{Formats}
use p2pft.Transfer.Peer.{Peer}
use p2pft.Transfer.Resume.{partial_path, meta_path}
use p2pft.Transfer.Receiver.{Receiver, receive_all, deliver, finish, receive_file}
use p2pft.Transfer.Receiver.Stream.{frames, IsChunk, totals, Received, receive_loop-frames}
use p2pft.Io.Exec.{follow}
use p2pft.Transfer.Receiver.Opened.{Prior, sidecar, opened-ok}

-- Each frame takes four bytes at least, so the loop has a round for each of them.
length-frames :
    (bs : List Bytes) (rest : Bytes) → length bs < suc (length (frames bs ++ (frame [] ++ rest)))
length-frames [] rest = omega arith
length-frames (b ∷ bs) rest = omega (
  arith,
  length-frames bs rest,
  length-append (frame b ++ frames bs) (frame [] ++ rest),
  length-append (frame b) (frames bs),
  length-append (frames bs) (frame [] ++ rest),
  length-append (put_uint32 (length b)) b,
)

pub receive_all-frames :
    (path : Text) (on : Bool) (bs : List Bytes) (n : ℕ) (old rest : Bytes) (s : Peer)
    → IsQuiet s.disk
    → s.disk.files path ≡ some old
    → All IsChunk bs
    → s.conn.incoming ≡ frames bs ++ (frame [] ++ rest)
    → (t : Peer) × (receive_all path on n s ≡ (ok tt, t)) × Received path on n old bs rest s t
unfolding receive_all
receive_all-frames path on bs n old rest s q e cs i =
    receive_loop-frames path on bs (suc (length s.conn.incoming)) n old rest s
      (rw i (length-frames bs rest)) q e cs i

module _ (formats : Formats) (r : Receiver) where
  -- The files behind a transfer: the content at the destination, no partial file, no sidecar.
  abbrev pub delivered : (Text → Option Bytes) → Bytes → Text → Option Bytes
  delivered files b =
      update (update (update files (partial_path r.dest) none) r.dest (some b)) (meta_path r.dest)
        none

  pub finish-ok :
      (b : Bytes) (s : Peer)
      → IsQuiet s.disk
      → s.disk.files (partial_path r.dest) ≡ some b
      → s.absorbed ≡ b
      → s.conn.incoming ≡ formats.digest.sum b
      → (t : Peer) × (finish formats r s ≡ (ok tt, t))
        × (t.disk.files ≡ delivered s.disk.files b)
        × (t.progress ≡ s.progress)
        × (t.conn.outgoing ≡ s.conn.outgoing)
  unfolding finish deliver
  finish-ok b s q e a i =
      let trailer = formats.digest.sum b in
      let q₁ = spend-IsQuiet s.disk q in
      let q₂ = spend-IsQuiet (spend s.disk) q₁ in
      let d₂ = spend (spend s.disk) in
      let d₃ : Disk = record (spend d₂) {
        files = update (update s.disk.files (partial_path r.dest) none) r.dest (some b);
      } in
      (
        record s {
          conn = record s.conn { incoming = [] };
          disk = record (spend d₃) { files = delivered s.disk.files b };
        },
        rw (
          sym (formats.digest.sum_length b),
          read_full-append s.conn trailer [] (i ∙ sym (append-nil trailer)),
          a,
          eqb_text_refl trailer,
          tick-ok s.disk q,
          tick-ok (spend s.disk) q₁,
          rename-ok d₂ q₂ (partial_path r.dest) r.dest b e,
          remove-ok d₃ (spend-IsQuiet d₂ q₂) (meta_path r.dest),
        ),
        refl,
        refl,
        refl,
      )

  pub delivered-update :
      (files : Text → Option Bytes) (p m b : Bytes)
      → delivered
          (update
            (update (update files (partial_path r.dest) (some p)) (meta_path r.dest) (some m))
            (partial_path r.dest)
            (some b))
          b
        ≡ delivered files b
  delivered-update files p m b = fun_ext (λ q. ground arith)

  -- The state that `Run` leaves behind a transfer that went on from `offset`.
  pub record Delivered (offset : ℕ) (prior : Bytes) (bs : List Bytes) (s t : Peer) : Type 0 where
    pub files : t.disk.files ≡ delivered s.disk.files (prior ++ concat bs)
    pub progress : t.progress ≡ s.progress ++ totals r.on_progress offset bs
    pub output : t.conn.outgoing ≡ s.conn.outgoing

  pub receive_file-ok :
      (offset : ℕ) (prior : Bytes) (bs : List Bytes) (s : Peer)
      → IsQuiet s.disk
      → length prior ≡ offset
      → Prior s.disk (partial_path r.dest) offset prior
      → All IsChunk bs
      → s.conn.incoming ≡ frames bs ++ (frame [] ++ formats.digest.sum (prior ++ concat bs))
      → (t : Peer) × (receive_file formats r offset s ≡ (ok tt, t)) × Delivered offset prior bs s t
  receive_file-ok offset prior bs s q n p cs i =
      let P = partial_path r.dest in
      let (s₃, o) = opened-ok formats r offset prior s q n p in
      let (s₄, e₄, v) =
        receive_all-frames P r.on_progress bs offset prior (formats.digest.sum (prior ++ concat bs))
          s₃ o.quiet o.at_partial cs (ap (λ (c : Conn). c.incoming) o.conn ∙ i) in
      let (t, e₅, k₅, p₅, o₅) =
        finish-ok (prior ++ concat bs) s₄ v.quiet
          (ap (λ (f : Text → Option Bytes). f P) v.files
            ∙ update_self s₃.disk.files P (some (prior ++ concat bs)))
          (v.absorbed ∙ ap (λ (b : Bytes). b ++ concat bs) o.absorbed)
          (ap (λ (c : Conn). c.incoming) v.input) in
      (
        t,
        o.leads
            ∙ ap (λ (x : Result (Unit {0}) × Peer). follow x.0 (λ _. finish formats r) x.1) e₄
            ∙ e₅,
        record {
          files =
              k₅
              ∙ ap (λ (f : Text → Option Bytes). delivered f (prior ++ concat bs))
                  (v.files
                    ∙ ap (λ (f : Text → Option Bytes). update f P (some (prior ++ concat bs)))
                        o.files)
              ∙ delivered-update s.disk.files prior (sidecar formats r) (prior ++ concat bs);
          progress =
              p₅
              ∙ v.progress
              ∙ ap (λ (ns : List ℕ). ns ++ totals r.on_progress offset bs) o.progress;
          output =
              o₅ ∙ ap (λ (c : Conn). c.outgoing) (v.input) ∙ ap (λ (c : Conn). c.outgoing) o.conn;
        },
      )
