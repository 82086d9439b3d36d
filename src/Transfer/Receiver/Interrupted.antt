-- ===== src/Transfer/Receiver/Interrupted.antt =====
-- `Run` on the stream of a sender that breaks off anywhere, where no call on the disk fails.
use p2pft.Prelude.{
  ℕ, suc, ◌<◌, ◌≡◌, refl, sym, ap, ◌∙◌, ◌⊎◌, inl, inr, Option, some, List, [], ◌∷◌, ◌++◌, length,
  append-nil, append_assoc, All, concat, Bytes, Text, arith,
}
use p2pft.Io.Result.{Result, ok, err}
use p2pft.Io.Exec.{follow}
use p2pft.Io.Conn.{Conn}
use p2pft.Io.Disk.{Disk, update}
use p2pft.Io.Disk.Quiet.{IsQuiet, update_self, update_ne}
use p2pft.Transfer.Framing.{hash_size}
use p2pft.Transfer.Framing.RoundTrip.{frame}
use p2pft.Transfer.Framing.Cut.{prefix_cases}
use p2pft.Transfer.Protocol.{Formats, IsMeta}
use p2pft.Transfer.Peer.{Peer}
use p2pft.Transfer.Resume.{partial_path, meta_path}
use p2pft.Transfer.Resume.Paths.{meta_path-ne-partial_path}
use p2pft.Transfer.Receiver.{Receiver, receive_all, finish, receive_file}
use p2pft.Transfer.Receiver.Stream.{frames, IsChunk, Received}
use p2pft.Transfer.Receiver.Complete.{delivered, finish-ok, delivered-update}
use p2pft.Transfer.Receiver.Cut.{Stops, Full, receive_loop-cut}
use p2pft.Transfer.Receiver.Opened.{Prior, sidecar, Opened, opened-ok}
use p2pft.Transfer.Receiver.Again.{Again, Arrived, Lost, Again-of, finish-short}

append-nil_left : (xs ys : Bytes) → xs ++ ys ≡ [] → xs ≡ []
append-nil_left [] ys e = refl
append-nil_left (x ∷ xs) ys e = absurd (omega (arith, ap length e))

module _ (formats : Formats) (r : Receiver) where
  module _ (offset : ℕ) (prior : Bytes) (bs : List Bytes) (s t : Peer)
      (o : Opened formats r offset prior s t)
      (meta : IsMeta (record { size = r.size; sha256 = r.sha256 })) where
    abbrev whole : Bytes
    whole = prior ++ concat bs

    abbrev loop : Result (Unit {0}) × Peer
    loop = receive_all (partial_path r.dest) r.on_progress offset t

    files_behind :
        (f : Text → Option Bytes) (b : Bytes)
        → f ≡ update t.disk.files (partial_path r.dest) (some b)
        → (f (meta_path r.dest) ≡ some (sidecar formats r)) × (f (partial_path r.dest) ≡ some b)
    files_behind f b e = (
      ap (λ (g : Text → Option Bytes). g (meta_path r.dest)) e
          ∙ update_ne t.disk.files (partial_path r.dest) (meta_path r.dest) (some b)
              (λ k. meta_path-ne-partial_path r.dest (sym k))
          ∙ ap (λ (g : Text → Option Bytes). g (meta_path r.dest)) o.files
          ∙ update_self (update s.disk.files (partial_path r.dest) (some prior)) (meta_path r.dest)
              (some (sidecar formats r)),
      ap (λ (g : Text → Option Bytes). g (partial_path r.dest)) e
          ∙ update_self t.disk.files (partial_path r.dest) (some b),
    )

    Again-at :
        (kept missing : Bytes) (d : Disk)
        → whole ≡ kept ++ missing
        → IsQuiet d
        → d.files ≡ update t.disk.files (partial_path r.dest) (some kept)
        → Again formats r whole d
    Again-at kept missing d parts q e =
        let (m, p) = files_behind d.files kept e in
        Again-of formats r whole kept missing d meta parts q m p

    -- The loop has ended well, and `Run` goes on.
    goes_on :
        (end : Peer) → loop ≡ (ok tt, end) → receive_file formats r offset s ≡ finish formats r end
    goes_on end e =
        o.leads ∙ ap (λ (x : Result (Unit {0}) × Peer). follow x.0 (λ _. finish formats r) x.1) e

    no_trailer :
        (kept missing : Bytes) (end : Peer)
        → loop ≡ (ok tt, end)
        → length end.conn.incoming < hash_size
        → whole ≡ kept ++ missing
        → IsQuiet end.disk
        → end.disk.files ≡ update t.disk.files (partial_path r.dest) (some kept)
        → Lost formats r whole (receive_file formats r offset s)
    no_trailer kept missing end e short parts q f =
        let (x, k) = finish-short formats r end short in
        record {
          why = x;
          end = record end { conn = record end.conn { incoming = [] } };
          ran = goes_on end e ∙ k;
          again = Again-at kept missing end.disk parts q f;
        }

    stopped :
        (end : Peer) (answer : Result (Unit {0}))
        → loop ≡ (answer, end)
        → Stops (partial_path r.dest) prior (concat bs) t end
        → Lost formats r whole (receive_file formats r offset s)
    stopped end (ok u) e h =
        no_trailer (prior ++ h.kept) h.missing end e (omega (arith, ap length h.dry))
          (ap (λ (b : Bytes). prior ++ b) h.parts ∙ sym (append_assoc prior h.kept h.missing))
          h.quiet h.files
    stopped end (err x) e h = record {
      why = x;
      end = end;
      ran =
          o.leads ∙ ap (λ (y : Result (Unit {0}) × Peer). follow y.0 (λ _. finish formats r) y.1) e;
      again =
          Again-at (prior ++ h.kept) h.missing end.disk
            (ap (λ (b : Bytes). prior ++ b) h.parts ∙ sym (append_assoc prior h.kept h.missing))
            h.quiet h.files;
    }

    all_there :
        (more : Bytes) (end : Peer)
        → more ≡ formats.digest.sum whole
        → loop ≡ (ok tt, end)
        → Received (partial_path r.dest) r.on_progress offset prior bs more t end
        → Arrived formats r whole s.disk.files (receive_file formats r offset s)
    all_there more end is_digest e v =
        let (last, k, files, _, _) =
          finish-ok formats r whole end v.quiet (files_behind end.disk.files whole v.files).1
            (v.absorbed ∙ ap (λ (b : Bytes). b ++ concat bs) o.absorbed)
            (ap (λ (c : Conn). c.incoming) v.input ∙ is_digest) in
        record {
          end = last;
          ran = goes_on end e ∙ k;
          delivers =
              files
              ∙ ap (λ (f : Text → Option Bytes). delivered formats r f whole)
                  (v.files
                    ∙ ap (λ (f : Text → Option Bytes). update f (partial_path r.dest) (some whole))
                        o.files)
              ∙ delivered-update formats r s.disk.files prior (sidecar formats r) whole;
        }

    all_frames :
        (lost : Bytes)
        → Full
            (partial_path r.dest)
            r.on_progress
            offset
            prior
            bs
            (formats.digest.sum whole)
            lost
            t
            loop
        → Arrived formats r whole s.disk.files (receive_file formats r offset s)
          ⊎ Lost formats r whole (receive_file formats r offset s)
    all_frames lost f =
        elim (prefix_cases (formats.digest.sum whole) [] f.more lost
          (f.later ∙ sym (append-nil (formats.digest.sum whole)))) [
            | inl short ↦ inr (
                no_trailer whole [] f.end f.ran
                  (omega (
                    arith,
                    short,
                    formats.digest.sum_length whole,
                    ap (λ (c : Conn). length c.incoming) f.received.input,
                  ))
                  (sym (append-nil whole)) f.received.quiet f.received.files)
            | inr (more, at, none_left) ↦ inl (
                all_there f.more f.end
                  (at
                    ∙ ap (λ (b : Bytes). formats.digest.sum whole ++ b)
                        (append-nil_left more lost none_left)
                    ∙ append-nil (formats.digest.sum whole))
                  f.ran f.received)
          ]

  pub receive_file-cut :
      (offset : ℕ) (prior : Bytes) (bs : List Bytes) (lost : Bytes) (s : Peer)
      → IsQuiet s.disk
      → length prior ≡ offset
      → Prior s.disk (partial_path r.dest) offset prior
      → IsMeta (record { size = r.size; sha256 = r.sha256 })
      → All IsChunk bs
      → s.conn.incoming ++ lost ≡ frames bs ++ (frame [] ++ formats.digest.sum (prior ++ concat bs))
      → Arrived formats r (prior ++ concat bs) s.disk.files (receive_file formats r offset s)
        ⊎ Lost formats r (prior ++ concat bs) (receive_file formats r offset s)
  unfolding receive_all
  receive_file-cut offset prior bs lost s q n p meta cs i =
      let (t, o) = opened-ok formats r offset prior s q n p in
      elim (receive_loop-cut (partial_path r.dest) r.on_progress bs (suc (length t.conn.incoming))
        offset prior (formats.digest.sum (prior ++ concat bs)) lost t (omega arith) o.quiet
        o.at_partial cs (ap (λ (c : Conn). c.incoming ++ lost) o.conn ∙ i)) [
          | inl full ↦ all_frames offset prior bs s t o meta lost full
          | inr part ↦
              inr (stopped offset prior bs s t o meta part.end part.answer part.ran part.stops)
        ]
