-- ===== src/Transfer/Receiver/Verified.antt =====
-- A `Run` that succeeds has checked the file that it leaves at the destination.
use mathlib.Core.Path.{subst}
use p2pft.Prelude.{
  ℕ, ◌≡◌, refl, ◌∙◌, Option, none, some, [], ◌++◌, Bytes, Text, inl, inr, Bool-cases, eqb_text,
  eqb_text→eq,
}
use p2pft.Io.Result.{Result, ok, err}
use p2pft.Io.Exec.Keeps.{Keeps}
use p2pft.Io.Exec.Yields.{
  Yields, Established, Yields-of-Keeps, Yields-raise, Yields-annotate, Yields-if, Yields-bind,
  Yields-ok,
}
use p2pft.Io.Conn.{Conn, read_full}
use p2pft.Io.Conn.Reads.{From, Just, read_full-Just}
use p2pft.Io.Disk.{
  Event, runs, short, fails, Disk, update, remove, rename, rename_event, move, next_event, spend,
  tick,
}
use p2pft.Io.Disk.Keeps.{write_file-Keeps, remove-Keeps}
use p2pft.Io.Disk.Quiet.{update_self}
use p2pft.Transfer.Framing.{hash_size}
use p2pft.Transfer.Protocol.{Formats, PartialMeta, TransferStart}
use p2pft.Transfer.Protocol.Reads.{read_json_frame-Keeps, write_json_frame-Keeps}
use p2pft.Transfer.Peer.{Peer, on_conn, on_disk}
use p2pft.Transfer.Resume.{partial_path, meta_path, write_meta}
use p2pft.Transfer.Resume.Offset.{Sized, check_partial-Sized}
use p2pft.Transfer.Resume.Paths.{meta_path-ne, meta_path-ne-partial_path}
use p2pft.Transfer.Receiver.{Receiver, check_trailer, deliver, finish, receive_file, accept, run}
use p2pft.Transfer.Receiver.Synced.{Synced, receive_all-Synced}
use p2pft.Transfer.Receiver.Seeded.{
  With, on_disk-With, on_conn-With, Opened, open_partial-Opened, reset_hash-Fresh, seed-Synced,
}

module _ (all : Bytes) where
  -- The trailer has been read.
  record Read (path : Text) (trailer : Bytes) (s : Peer) : Type 0 where
    input : Just all trailer s.conn
    files : s.disk.files path ≡ some s.absorbed

  module _ (formats : Formats) (r : Receiver) where
    -- The file at `q` has the digest that was last read off the stream.
    pub record Checked (q : Text) (s : Peer) : Type 0 where
      pub content : Bytes
      pub file : s.disk.files q ≡ some content
      pub trailer : Just all (formats.digest.sum content) s.conn
      pub hashed : s.absorbed ≡ content

    trailer-Read :
        Yields
          (Synced all (partial_path r.dest))
          (on_conn (read_full hash_size))
          (Read (partial_path r.dest))
    trailer-Read = record {
      at = λ s h.
          lifted s h (read_full hash_size s.conn)
            ((read_full-Just all hash_size).at s.conn h.input);
    }
      where
        lifted :
            (s : Peer)
            → Synced all (partial_path r.dest) s
            → (o : Result Bytes × Conn) → Established (Just all) o
            → Established (Read (partial_path r.dest)) (o.0, record s { conn = o.1 })
        lifted s h (ok x, c) e = record { input = e; files = h.files }
        lifted s h (err x, c) e = tt

    check_trailer-Checked :
        (x : Bytes)
        → Yields
            (Read (partial_path r.dest) x)
            (check_trailer formats r x)
            (λ _. Checked (partial_path r.dest))
    check_trailer-Checked x = record {
      at = λ s h. elim (Bool-cases (eqb_text x (formats.digest.sum s.absorbed))) [
        | inl same ↦ rw same (record {
          content = s.absorbed;
          file = h.files;
          trailer = subst (λ y. Just all y s.conn) (eqb_text→eq _ _ same) h.input;
          hashed = refl;
        })
        | inr other ↦ rw other tt
      ];
    }

    tick-Checked : (q : Text) → Keeps (Checked q) (on_disk tick)
    unfolding tick
    tick-Checked q = record {
      at = λ s h. record {
        content = h.content;
        file = h.file;
        trailer = h.trailer;
        hashed = h.hashed;
      };
    }

    move-Checked :
        (s : Peer) (h : Checked (partial_path r.dest) s) (d : Disk) (o : Option Bytes)
        → o ≡ some h.content
        → Established
            (λ _. Checked r.dest)
            (
              (move o (partial_path r.dest) r.dest d).0,
              record s { disk = (move o (partial_path r.dest) r.dest d).1 },
            )
    move-Checked s h d none e = tt
    move-Checked s h d (some b) e = record {
      content = h.content;
      file = update_self (update d.files (partial_path r.dest) none) r.dest (some b) ∙ e;
      trailer = h.trailer;
      hashed = h.hashed;
    }

    rename_event-Checked :
        (e : Event) (s : Peer) (h : Checked (partial_path r.dest) s) (d : Disk)
        → d.files (partial_path r.dest) ≡ some h.content
        → Established
            (λ _. Checked r.dest)
            (
              (rename_event e (partial_path r.dest) r.dest d).0,
              record s { disk = (rename_event e (partial_path r.dest) r.dest d).1 },
            )
    rename_event-Checked (fails k) s h d e = tt
    rename_event-Checked runs s h d e = move-Checked s h d (d.files (partial_path r.dest)) e
    rename_event-Checked (short k) s h d e = move-Checked s h d (d.files (partial_path r.dest)) e

    rename-Checked :
        Yields
          (Checked (partial_path r.dest))
          (on_disk (rename (partial_path r.dest) r.dest))
          (λ _. Checked r.dest)
    unfolding rename
    rename-Checked = record {
      at = λ s h. rename_event-Checked (next_event s.disk.events) s h (spend s.disk) h.file;
    }

    remove-Checked : Keeps (Checked r.dest) (on_disk (remove (meta_path r.dest)))
    remove-Checked = record {
      at = λ s h. record {
        content = h.content;
        file =
            ((remove-Keeps r.dest (some h.content) (meta_path r.dest) (meta_path-ne r.dest)).at
              s.disk (record { at = h.file })).at;
        trailer = h.trailer;
        hashed = h.hashed;
      };
    }

    deliver-Checked :
        Yields (Checked (partial_path r.dest)) (deliver formats r) (λ _. Checked r.dest)
    unfolding deliver
    deliver-Checked =
        Yields-bind _ _ (Yields-annotate "rename to dest" _ rename-Checked)
          (λ _. Yields-of-Keeps _ remove-Checked)

    finish-Checked :
        Yields (Synced all (partial_path r.dest)) (finish formats r) (λ _. Checked r.dest)
    unfolding finish
    finish-Checked =
        Yields-bind _ _ (Yields-annotate "read trailer hash" _ trailer-Read) (λ trailer.
          Yields-bind _ _ (check_trailer-Checked trailer) (λ _.
            Yields-bind _ _ (Yields-annotate "sync partial" _ (Yields-of-Keeps _ (tick-Checked _)))
              (λ _.
                Yields-bind _ _
                  (Yields-annotate "close partial" _ (Yields-of-Keeps _ (tick-Checked _)))
                  (λ _. deliver-Checked))))

    write_meta-Opened :
        (n : ℕ) (m : PartialMeta)
        → Keeps (Opened (partial_path r.dest) n) (write_meta formats r.dest m)
    unfolding write_meta
    write_meta-Opened n m = record {
      at = λ d h. record {
        content = h.content;
        held =
            (write_file-Keeps (partial_path r.dest) (some h.content) (meta_path r.dest)
                (formats.partial_meta.marshal m) (meta_path-ne-partial_path r.dest)).at
              d h.held;
        size = h.size;
      };
    }

    receive_file-Checked :
        (n : ℕ)
        → Yields
            (With all (Sized (partial_path r.dest) n))
            (receive_file formats r n)
            (λ _. Checked r.dest)
    unfolding receive_file
    receive_file-Checked n =
        Yields-bind _ _
          (Yields-annotate "open partial" _
            (on_disk-With all _ (open_partial-Opened (partial_path r.dest) n)))
          (λ _.
            Yields-bind _ _
              (Yields-annotate "write meta sidecar" _
                (on_disk-With all _ (Yields-of-Keeps _ (write_meta-Opened n _))))
              (λ _. Yields-bind _ _ (reset_hash-Fresh all (partial_path r.dest) n) (λ _.
                Yields-bind _ _ (seed-Synced all formats r n) (λ _.
                  Yields-bind _ _
                    (Yields-of-Keeps _
                      (receive_all-Synced all (partial_path r.dest) r.on_progress n))
                    (λ _. finish-Checked)))))

    accept-Checked :
        (n : ℕ) (start : TransferStart)
        → Yields
            (With all (Sized (partial_path r.dest) n))
            (accept formats r n start)
            (λ _. Checked r.dest)
    unfolding accept
    accept-Checked n start = search (Yields-if, Yields-raise, receive_file-Checked)

    run-Checked : Yields (With all (λ _. Unit {0})) (run formats r) (λ _. Checked r.dest)
    unfolding run
    run-Checked =
        Yields-bind _ _
          (Yields-annotate "check partial" _
            (on_disk-With all _ (check_partial-Sized r.dest formats r.size r.sha256)))
          (λ n.
            Yields-bind _ _
              (Yields-annotate "write resume_request" _
                (on_conn-With all _ (write_json_frame-Keeps all formats.request _)))
              (λ _.
                Yields-bind _ _
                  (Yields-annotate "read transfer_start" _
                    (on_conn-With all _ (read_json_frame-Keeps all formats.start)))
                  (λ start. accept-Checked n start)))

module _ (formats : Formats) (r : Receiver) where
  -- Whatever the peer sends, whatever the partial file was and whichever calls fail, if `Run` ends
  -- without an error then there is a file at the destination, and the last bytes that were read
  -- off the stream are its digest.
  pub run-verifies :
      (s t : Peer)
      → run formats r s ≡ (ok tt, t)
      → (b : Bytes) × (before : Bytes) × (t.disk.files r.dest ≡ some b)
        × (s.conn.incoming ≡ before ++ (formats.digest.sum b ++ t.conn.incoming))
  run-verifies s t h =
      let start : From s.conn.incoming s.conn = record { before = []; at = refl } in
      let c : Checked s.conn.incoming formats r r.dest t =
        Yields-ok (run formats r) (run-Checked s.conn.incoming formats r)
          (record { input = start; disk = tt }) h in
      (c.content, c.trailer.before, c.file, c.trailer.at)
