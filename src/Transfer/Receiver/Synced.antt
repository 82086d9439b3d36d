-- ===== src/Transfer/Receiver/Synced.antt =====
-- While `Run` receives, the hash has absorbed exactly what the partial file holds.
use p2pft.Prelude.{
  ℕ, zero, suc, ◌≡◌, refl, sym, ap, ◌∙◌, Bool, true, false, some, [], ◌∷◌, ◌++◌, ltb, length, take,
  min, append-nil, length-take, Bytes, Text, take-eq_self, arith, if◌then◌else◌,
}
use p2pft.Io.Result.{Result, ok, err}
use p2pft.Io.Exec.{Exec}
use p2pft.Io.Exec.Keeps.{Keeps, keeps_rules}
use p2pft.Io.Conn.{Conn}
use p2pft.Io.Conn.Reads.{From}
use p2pft.Io.Disk.{Event, runs, short, fails, Disk, append, append_event, next_event, spend, tick}
use p2pft.Io.Disk.Quiet.{update_self}
use p2pft.Transfer.Protocol.Reads.{read_frame-Keeps}
use p2pft.Transfer.Peer.{Peer, on_conn, on_disk}
use p2pft.Transfer.Checksum.{hashing_write}
use p2pft.Transfer.Sender.{notify}
use p2pft.Transfer.Receiver.{take_frame, receive_loop, receive_all}

take-min : (n : ℕ) (b : Bytes) → take (min n (length b)) b ≡ take n b
take-min n b = ground (arith, take-eq_self (length b) b, take-eq_self n b)

-- What the hash has absorbed when a file has taken the bytes `x` of `b`.
grown :
    (n : ℕ) (old b x : Bytes)
    → n ≡ length x
    → take n b ≡ x
    → (if ltb 0 n then old ++ take n b else old) ≡ old ++ x
grown n old b [] e h = ground (arith, append-nil old)
grown n old b (c ∷ x) e h = ground (arith, h)

module _ (all : Bytes) (path : Text) where
  pub record Synced (s : Peer) : Type 0 where
    pub input : From all s.conn
    pub files : s.disk.files path ≡ some s.absorbed

  pub on_conn-Synced :
      {A : Type 0} (m : Exec Conn A) → Keeps (From all) m → Keeps Synced (on_conn m)
  on_conn-Synced m k = record {
    at = λ s h. record { input = k.at s.conn h.input; files = h.files };
  }

  pub tick-Synced : Keeps Synced (on_disk tick)
  unfolding tick
  tick-Synced = record { at = λ s h. record { input = h.input; files = h.files } }

  notify-Synced : (on : Bool) (n : ℕ) → Keeps Synced (notify on n)
  notify-Synced true n = record { at = λ s h. record { input = h.input; files = h.files } }
  notify-Synced false n = record { at = λ s h. h }

  -- What the hash absorbs is what the file took, of a write that fails too.
  absorbed_write :
      (e : Event) (b : Bytes) (d : Disk) (old : Bytes)
      → d.files path ≡ some old
      → (append_event e path b d).2.files path
        ≡ some (
            if ltb 0 (append_event e path b d).0
            then old ++ take (append_event e path b d).0 b
            else old)
  absorbed_write (fails k) b d old h =
      update_self d.files path _
      ∙ ap some (
          sym (
            rw h
              (grown (min k (length b)) old b (take k b) (sym (length-take k b)) (take-min k b))))
  absorbed_write runs b d old h =
      update_self d.files path _
      ∙ ap some
          (sym (rw h (grown (length b) old b b refl (take-eq_self (length b) b (omega arith)))))
  absorbed_write (short k) b d old h =
      update_self d.files path _
      ∙ ap some
          (sym (rw h (grown (length b) old b b refl (take-eq_self (length b) b (omega arith)))))

  hashing_write-Synced : (b : Bytes) → Keeps Synced (hashing_write path b)
  unfolding hashing_write append
  hashing_write-Synced b = record {
    at = λ s h. record {
      input = h.input;
      files = absorbed_write (next_event s.disk.events) b (spend s.disk) s.absorbed h.files;
    };
  }

  ruleset synced_rules = (keeps_rules, on_conn-Synced, notify-Synced, hashing_write-Synced)

  take_frame-Synced :
      (on : Bool) (n : ℕ) (next : ℕ → Exec Peer (Unit {0})) (r : Result Bytes)
      → ((k : ℕ) → Keeps Synced (next k))
      → Keeps Synced (take_frame path on n next r)
  take_frame-Synced on n next (ok b) k = search synced_rules
  take_frame-Synced on n next (err e) k = search synced_rules

  receive_loop-Synced : (on : Bool) (fuel n : ℕ) → Keeps Synced (receive_loop path on fuel n)
  unfolding receive_loop
  receive_loop-Synced on zero n = search synced_rules
  receive_loop-Synced on (suc fuel) n =
      search (
        synced_rules,
        read_frame-Keeps,
        take_frame-Synced,
        λ (k : ℕ). receive_loop-Synced on fuel k,
      )

  pub receive_all-Synced : (on : Bool) (n : ℕ) → Keeps Synced (receive_all path on n)
  unfolding receive_all
  receive_all-Synced on n = record {
    at = λ s h. (receive_loop-Synced on (suc (length s.conn.incoming)) n).at s h;
  }
