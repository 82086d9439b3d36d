-- ===== src/Transfer/Receiver/Atomic.antt =====
-- Whatever happens, the receiver's `Run` changes no file but its own three, and it changes the
-- destination only if it succeeds.
use p2pft.Prelude.{ℕ, zero, suc, ◌≡◌, ◌≢◌, refl, Bool, true, false, Option, length, Bytes, Text}
use p2pft.Io.Result.{Error, Result, ok, err}
use p2pft.Io.Exec.{Exec}
use p2pft.Io.Exec.Keeps.{
  Keeps, Guards, Guards-if, Guards-annotate, Guards-bind_last, Failed, keeps_rules, guards_rules,
}
use p2pft.Io.Conn.{Conn}
use p2pft.Io.Disk.{Disk, rename, remove}
use p2pft.Io.Disk.Keeps.{
  Holds, read_file-Keeps, create-Keeps, open_append-Keeps, append-Holds, tick-Keeps, remove-Keeps,
  rename-Keeps, rename-Guards,
}
use p2pft.Transfer.Protocol.{Formats, TransferStart}
use p2pft.Transfer.Peer.{Peer, on_conn, on_disk}
use p2pft.Transfer.Resume.{partial_path, meta_path}
use p2pft.Transfer.Resume.Paths.{partial_path-ne, meta_path-ne}
use p2pft.Transfer.Resume.Keeps.{check_partial-Keeps, write_meta-Keeps}
use p2pft.Transfer.Checksum.{hashing_write}
use p2pft.Transfer.Sender.{notify}
use p2pft.Transfer.Receiver.{
  Receiver, open_partial, reset_hash, absorb_prefix, seed_hash_from_partial, take_frame,
  receive_loop, receive_all, check_trailer, deliver, finish, receive_file, accept, run,
}

-- The file at `q` is `v`.
pub record Has (q : Text) (v : Option Bytes) (s : Peer) : Type 0 where
  pub on_disk : Holds q v s.disk

module _ (q : Text) (v : Option Bytes) where
  on_disk-Keeps : {A : Type 0} (m : Exec Disk A) → Keeps (Holds q v) m → Keeps (Has q v) (on_disk m)
  on_disk-Keeps m k = record { at = λ s h. record { on_disk = k.at s.disk h.on_disk } }

  on_conn-Keeps : {A : Type 0} (m : Exec Conn A) → Keeps (Has q v) (on_conn m)
  on_conn-Keeps m = record { at = λ s h. record { on_disk = h.on_disk } }

  notify-Keeps : (on : Bool) (n : ℕ) → Keeps (Has q v) (notify on n)
  notify-Keeps true n = record { at = λ s h. record { on_disk = h.on_disk } }
  notify-Keeps false n = record { at = λ s h. h }

  hashing_write-Keeps : (p : Text) (b : Bytes) → p ≢ q → Keeps (Has q v) (hashing_write p b)
  unfolding hashing_write
  hashing_write-Keeps p b n = record {
    at = λ s h. record { on_disk = append-Holds q v p b s.disk n h.on_disk };
  }

  absorb_prefix-Keeps : (n : ℕ) (b : Bytes) → Keeps (Has q v) (absorb_prefix n b)
  absorb_prefix-Keeps n b = record { at = λ s h. record { on_disk = h.on_disk } }

  reset_hash-Keeps : Keeps (Has q v) reset_hash
  reset_hash-Keeps = record { at = λ s h. record { on_disk = h.on_disk } }

  ruleset peer_rules = (
    keeps_rules, on_disk-Keeps, on_conn-Keeps, notify-Keeps, hashing_write-Keeps,
    absorb_prefix-Keeps, reset_hash-Keeps,
  )

  take_frame-Keeps :
      (p : Text) (on : Bool) (n : ℕ) (next : ℕ → Exec Peer (Unit {0})) (r : Result Bytes)
      → p ≢ q
      → ((k : ℕ) → Keeps (Has q v) (next k))
      → Keeps (Has q v) (take_frame p on n next r)
  take_frame-Keeps p on n next (ok b) d k = search peer_rules
  take_frame-Keeps p on n next (err e) d k = search peer_rules

  receive_loop-Keeps :
      (p : Text) (on : Bool) (fuel n : ℕ) → p ≢ q → Keeps (Has q v) (receive_loop p on fuel n)
  unfolding receive_loop
  receive_loop-Keeps p on zero n d = search peer_rules
  receive_loop-Keeps p on (suc fuel) n d =
      search (peer_rules, take_frame-Keeps, λ (k : ℕ). receive_loop-Keeps p on fuel k d)

  receive_all-Keeps : (p : Text) (on : Bool) (n : ℕ) → p ≢ q → Keeps (Has q v) (receive_all p on n)
  unfolding receive_all
  receive_all-Keeps p on n d = record {
    at = λ s h. (receive_loop-Keeps p on (suc (length s.conn.incoming)) n d).at s h;
  }

  module _ (formats : Formats) (r : Receiver) (p : partial_path r.dest ≢ q) where
    seed_hash-Keeps : (n : ℕ) → Keeps (Has q v) (seed_hash_from_partial (partial_path r.dest) n)
    unfolding seed_hash_from_partial
    seed_hash-Keeps n = search (peer_rules, read_file-Keeps)

    open_partial-Keeps : (n : ℕ) → Keeps (Holds q v) (open_partial (partial_path r.dest) n)
    open_partial-Keeps n = search (keeps_rules, create-Keeps, open_append-Keeps)

    check_trailer-Keeps : (b : Bytes) → Keeps (Has q v) (check_trailer formats r b)
    check_trailer-Keeps b = record { at = λ s h. h }

    deliver-Keeps : meta_path r.dest ≢ q → r.dest ≢ q → Keeps (Has q v) (deliver formats r)
    unfolding deliver
    deliver-Keeps m d = search (peer_rules, rename-Keeps, remove-Keeps)

    finish-Keeps : meta_path r.dest ≢ q → r.dest ≢ q → Keeps (Has q v) (finish formats r)
    unfolding finish
    finish-Keeps m d = search (peer_rules, check_trailer-Keeps, tick-Keeps, deliver-Keeps) depth 7

    rename-Guards_peer : Guards (Has q v) (on_disk (rename (partial_path r.dest) r.dest))
    rename-Guards_peer = record {
      at = λ s h f. record {
        on_disk = (rename-Guards q v (partial_path r.dest) r.dest).at s.disk h.on_disk f;
      };
    }

    remove-never : (t : Peer) → Failed (on_disk (remove (meta_path r.dest)) t).0 → ⊥
    unfolding remove
    remove-never t f = f

    deliver-Guards : Guards (Has q v) (deliver formats r)
    unfolding deliver
    deliver-Guards =
        Guards-bind_last _ _ (Guards-annotate "rename to dest" _ rename-Guards_peer)
          (λ a t. remove-never t)

    finish-Guards : Guards (Has q v) (finish formats r)
    unfolding finish
    finish-Guards =
        search (guards_rules, peer_rules, check_trailer-Keeps, tick-Keeps, deliver-Guards) depth 7

    receive_file-Keeps :
        meta_path r.dest ≢ q → r.dest ≢ q → (n : ℕ) → Keeps (Has q v) (receive_file formats r n)
    unfolding receive_file
    receive_file-Keeps m d n =
        search
          (
            peer_rules, open_partial-Keeps, write_meta-Keeps, seed_hash-Keeps, receive_all-Keeps,
            finish-Keeps,
          )
          depth 8

    receive_file-Guards :
        meta_path r.dest ≢ q → (n : ℕ) → Guards (Has q v) (receive_file formats r n)
    unfolding receive_file
    receive_file-Guards m n =
        search
          (
            guards_rules, peer_rules, open_partial-Keeps, write_meta-Keeps, seed_hash-Keeps,
            receive_all-Keeps, finish-Guards,
          )
          depth 8

    accept-Keeps :
        meta_path r.dest ≢ q
        → r.dest ≢ q
        → (n : ℕ) (start : TransferStart) → Keeps (Has q v) (accept formats r n start)
    unfolding accept
    accept-Keeps m d n start = search (keeps_rules, receive_file-Keeps)

    run-Keeps : meta_path r.dest ≢ q → r.dest ≢ q → Keeps (Has q v) (run formats r)
    unfolding run
    run-Keeps m d = search (peer_rules, check_partial-Keeps, accept-Keeps)

    accept-Guards :
        meta_path r.dest ≢ q
        → (n : ℕ) (start : TransferStart) → Guards (Has q v) (accept formats r n start)
    unfolding accept
    accept-Guards m n start = search (guards_rules, keeps_rules, Guards-if, receive_file-Guards)

    run-Guards : meta_path r.dest ≢ q → Guards (Has q v) (run formats r)
    unfolding run
    run-Guards m = search (guards_rules, peer_rules, check_partial-Keeps, accept-Guards) depth 7

module _ (formats : Formats) (r : Receiver) where
  -- Whatever the peer sends and whichever calls fail, `Run` changes no file but the destination,
  -- the partial file and the sidecar.
  pub run-keeps_others :
      (s : Peer) (q : Text)
      → r.dest ≢ q
      → partial_path r.dest ≢ q
      → meta_path r.dest ≢ q
      → (run formats r s).1.disk.files q ≡ s.disk.files q
  run-keeps_others s q d p m =
      ((run-Keeps q (s.disk.files q) formats r p m d).at s
        (record { on_disk = record { at = refl } })).on_disk.at

  -- Whatever the peer sends and whichever calls fail, if `Run` ends with an error then the
  -- destination is as it was.
  pub run-atomic :
      (s : Peer) (e : Error) (t : Peer)
      → run formats r s ≡ (err e, t)
      → t.disk.files r.dest ≡ s.disk.files r.dest
  run-atomic s e t h =
      let k =
        (run-Guards r.dest (s.disk.files r.dest) formats r (partial_path-ne r.dest)
            (meta_path-ne r.dest)).at
          s (record { on_disk = record { at = refl } }) in
      (rw h at k tt).on_disk.at
