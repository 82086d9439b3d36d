-- ===== src/Transfer/Receiver/Seeded.antt =====
-- The start of `Run`: the hash absorbs what the partial file holds already.
use p2pft.Prelude.{
  ℕ, ◌≡◌, refl, sym, ap, ◌∙◌, true, false, some, [], ◌∷◌, ◌++◌, ◌==◌, leb, length, take,
  take-eq_self, Bytes, Text, inl, inr, Bool-cases, arith,
}
use p2pft.Io.Result.{Result, ok, err}
use p2pft.Io.Exec.{Exec, pure}
use p2pft.Io.Exec.Keeps.{Keeps}
use p2pft.Io.Exec.Yields.{Yields, Established, Yields-of-Keeps, Yields-annotate, Yields-bind}
use p2pft.Io.Conn.{Conn}
use p2pft.Io.Conn.Reads.{From}
use p2pft.Io.Disk.{
  Event, runs, short, fails, Disk, create, open_append, read_file, look_up, opened, next_event,
  spend, store,
}
use p2pft.Io.Disk.Keeps.{Holds}
use p2pft.Io.Disk.Quiet.{update_self}
use p2pft.Transfer.Protocol.{Formats}
use p2pft.Transfer.Peer.{Peer, on_conn, on_disk}
use p2pft.Transfer.Resume.{partial_path}
use p2pft.Transfer.Resume.Offset.{Sized, Seen, read_file-Seen}
use p2pft.Transfer.Receiver.{
  Receiver, open_partial, reset_hash, absorb_prefix, seed_hash_from_partial, seed,
}
use p2pft.Transfer.Receiver.Synced.{Synced}

-- The file at `path` has `n` bytes.
pub record Opened (path : Text) (n : ℕ) (d : Disk) : Type 0 where
  pub content : Bytes
  pub held : Holds path (some content) d
  pub size : length content ≡ n

module _ (path : Text) (n : ℕ) where
  store-Opened :
      (e : Event) (d : Disk) → n ≡ 0 → Established (λ _. Opened path n) (store e path (some []) d)
  store-Opened (fails k) d z = tt
  store-Opened runs d z = record {
    content = [];
    held = record { at = update_self d.files path (some []) };
    size = sym z;
  }
  store-Opened (short k) d z = record {
    content = [];
    held = record { at = update_self d.files path (some []) };
    size = sym z;
  }

  opened-Opened :
      (o : Result Bytes) (d : Disk) (b : Bytes)
      → d.files path ≡ some b
      → length b ≡ n
      → Established (λ _. Opened path n) (opened o, d)
  opened-Opened (ok x) d b f e = record { content = b; held = record { at = f }; size = e }
  opened-Opened (err x) d b f e = tt

  create-Opened : n ≡ 0 → {P : Disk → Type 0} → Yields P (create path) (λ _. Opened path n)
  unfolding create
  create-Opened z = record { at = λ d h. store-Opened (next_event d.events) (spend d) z }

  open_append-Opened :
      (n == 0) ≡ false → Yields (Sized path n) (open_append path) (λ _. Opened path n)
  unfolding open_append
  open_append-Opened z = record {
    at = λ d h. elim h.size [
      | inl e ↦ absurd (ground (arith, z, e))
      | inr (b, f, e) ↦ opened-Opened (look_up (next_event d.events) path d) (spend d) b f e
    ];
  }

  pub open_partial-Opened : Yields (Sized path n) (open_partial path n) (λ _. Opened path n)
  open_partial-Opened = elim (Bool-cases (n == 0)) [
    | inl z ↦ rw z (create-Opened (ground (arith, z)))
    | inr z ↦ rw z (open_append-Opened z)
  ]

module _ (all : Bytes) where
  -- The stream is read from the front, and the disk is as `D` says.
  pub record With (D : Disk → Type 0) (s : Peer) : Type 0 where
    pub input : From all s.conn
    pub disk : D s.disk

  pub on_disk-With :
      {A : Type 0} {D : Disk → Type 0} {E : A → Disk → Type 0}
      → (m : Exec Disk A) → Yields D m E
      → Yields (With D) (on_disk m) (λ a. With (E a))
  on_disk-With {A} {D} {E} m k = record { at = λ s h. lifted s h (m s.disk) (k.at s.disk h.disk) }
    where
      lifted :
          (s : Peer)
          → With D s
          → (r : Result A × Disk) → Established E r
          → Established (λ a. With (E a)) (r.0, record s { disk = r.1 })
      lifted s h (ok a, d) e = record { input = h.input; disk = e }
      lifted s h (err x, d) e = tt

  pub on_conn-With :
      {A : Type 0} {D : Disk → Type 0}
      → (m : Exec Conn A) → Keeps (From all) m
      → Yields (With D) (on_conn m) (λ _. With D)
  on_conn-With m k =
      Yields-of-Keeps _
        (record { at = λ s h. record { input = k.at s.conn h.input; disk = h.disk } })

  -- The partial file is open and the hash is new.
  pub record Fresh (path : Text) (n : ℕ) (s : Peer) : Type 0 where
    opened : With (Opened path n) s
    absorbed : s.absorbed ≡ []

  -- The partial file has been read.
  record Loaded (path : Text) (n : ℕ) (b : Bytes) (s : Peer) : Type 0 where
    fresh : Fresh path n s
    file : s.disk.files path ≡ some b

  pub reset_hash-Fresh :
      (path : Text) (n : ℕ) → Yields (With (Opened path n)) reset_hash (λ _. Fresh path n)
  reset_hash-Fresh path n = record {
    at = λ s h. record { opened = record { input = h.input; disk = h.disk }; absorbed = refl };
  }

  module _ (path : Text) (n : ℕ) where
    whole_file : (b : Bytes) (s : Peer) → Loaded path n b s → length b ≡ n
    whole_file b s h = cc (h.file, h.fresh.opened.disk.held.at, h.fresh.opened.disk.size)

    no_bytes : (b : Bytes) → length b ≡ 0 → b ≡ []
    no_bytes [] e = refl
    no_bytes (x ∷ xs) e = absurd (omega (arith, e))

    nothing-Synced : n ≡ 0 → Yields (Fresh path n) (pure tt) (λ _. Synced all path)
    nothing-Synced z = record {
      at = λ s h. record {
        input = h.opened.input;
        files =
            h.opened.disk.held.at
            ∙ ap some (no_bytes h.opened.disk.content (h.opened.disk.size ∙ z) ∙ sym h.absorbed);
      };
    }

    read_file-Loaded : Yields (Fresh path n) (on_disk (read_file path)) (Loaded path n)
    unfolding read_file
    read_file-Loaded = record {
      at = λ s h.
          look s h (look_up (next_event s.disk.events) path s.disk) (read_file-Seen path s.disk);
    }
      where
        look :
            (s : Peer)
            → Fresh path n s
            → (o : Result Bytes) → Seen path o (spend s.disk)
            → Established (Loaded path n) (o, record s { disk = spend s.disk })
        look s h (ok b) e = record {
          fresh = record {
            opened = record {
              input = h.opened.input;
              disk = record {
                content = h.opened.disk.content;
                held = record { at = h.opened.disk.held.at };
                size = h.opened.disk.size;
              };
            };
            absorbed = h.absorbed;
          };
          file = e.at b refl;
        }
        look s h (err x) e = tt

    absorb_prefix-Synced :
        (b : Bytes) → Yields (Loaded path n b) (absorb_prefix n b) (λ _. Synced all path)
    absorb_prefix-Synced b = record {
      at = λ s h.
          let fits : leb n (length b) ≡ true = ground (arith, whole_file b s h) in
          rw fits (record {
            input = h.fresh.opened.input;
            files =
                h.file
                ∙ ap some (
                    sym (
                      ap (λ t. t ++ take n b) h.fresh.absorbed
                      ∙ take-eq_self n b (omega (arith, whole_file b s h))));
          });
    }

    seed_hash-Synced : Yields (Fresh path n) (seed_hash_from_partial path n) (λ _. Synced all path)
    unfolding seed_hash_from_partial
    seed_hash-Synced = Yields-bind _ _ read_file-Loaded absorb_prefix-Synced

  pub seed-Synced :
      (formats : Formats) (r : Receiver) (n : ℕ)
      → Yields
          (Fresh (partial_path r.dest) n)
          (seed formats r n)
          (λ _. Synced all (partial_path r.dest))
  seed-Synced formats r n = elim (Bool-cases (n == 0)) [
    | inl z ↦ rw z (nothing-Synced (partial_path r.dest) n (ground (arith, z)))
    | inr z ↦
        rw z (Yields-annotate "seed hash from partial" _ (seed_hash-Synced (partial_path r.dest) n))
  ]
