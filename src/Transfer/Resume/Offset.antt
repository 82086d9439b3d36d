-- ===== src/Transfer/Resume/Offset.antt =====
-- The number that CheckPartial returns is the length of the partial file that it leaves behind.
use p2pft.Prelude.{ℕ, ℤ, ◌≡◌, refl, ◌⊎◌, inl, inr, Option, none, some, length, Bytes, Text}
use p2pft.Io.Result.{Result, ok, err}
use p2pft.Io.Exec.{pure, attempt, ◌>>=◌, ◌>>◌}
use p2pft.Io.Exec.Yields.{Yields, Yields-raise, Yields-if, Yields-bind}
use p2pft.Io.Disk.{Event, runs, short, fails, Disk, next_event, look_up, found, read_file, remove}
use p2pft.Transfer.Protocol.{Formats, PartialMeta}
use p2pft.Transfer.Resume.{
  partial_path, meta_path, drop_partial, check_stat, check_meta, check_sidecar, check_partial,
}

-- The offset is 0, or the file at `path` has that many bytes.
pub record Sized (path : Text) (n : ℕ) (d : Disk) : Type 0 where
  pub size : (n ≡ 0) ⊎ ((b : Bytes) × (d.files path ≡ some b) × (length b ≡ n))

-- What a read has returned is in the file.
pub record Seen (path : Text) (r : Result Bytes) (d : Disk) : Type 0 where
  pub at : (b : Bytes) → r ≡ ok b → d.files path ≡ some b

pub read_file-Seen : (path : Text) (d : Disk) → Seen path (read_file path d).0 (read_file path d).1
unfolding read_file
read_file-Seen path d = record { at = λ b. event (next_event d.events) b }
  where
    in_file : (o : Option Bytes) (b : Bytes) → found o ≡ ok b → o ≡ some b
    in_file none b h = cc h
    in_file (some c) b h = cc h

    event : (e : Event) (b : Bytes) → look_up e path d ≡ ok b → d.files path ≡ some b
    event (fails k) b h = cc h
    event runs b h = in_file (d.files path) b h
    event (short k) b h = in_file (d.files path) b h

ruleset yields_rules = (Yields-raise, Yields-if)

module _ (dest : Text) where
  drop_partial-Sized :
      {P : Disk → Type 0} → Yields P (drop_partial dest) (Sized (partial_path dest))
  unfolding drop_partial remove
  drop_partial-Sized = record { at = λ d h. record { size = inl refl } }

  zero-Sized : {P : Disk → Type 0} → Yields P (pure 0) (Sized (partial_path dest))
  zero-Sized = record { at = λ d h. record { size = inl refl } }

  remove-Sized :
      {P : Disk → Type 0} → Yields P (remove (meta_path dest) >> pure 0) (Sized (partial_path dest))
  unfolding remove
  remove-Sized = record { at = λ d h. record { size = inl refl } }

  length-Sized :
      (b : Bytes)
      → Yields (Seen (partial_path dest) (ok b)) (pure (length b)) (Sized (partial_path dest))
  length-Sized b = record { at = λ d h. record { size = inr (b, h.at b refl, refl) } }

  check_stat-Sized :
      (size : ℤ) (r : Result Bytes)
      → Yields (Seen (partial_path dest) r) (check_stat dest size r) (Sized (partial_path dest))
  unfolding check_stat
  check_stat-Sized size (ok b) = search (yields_rules, drop_partial-Sized, length-Sized)
  check_stat-Sized size (err e) = search (yields_rules, remove-Sized)

  check_file-Sized :
      (size : ℤ)
      → Yields
          (λ _. Unit {0})
          (attempt (read_file (partial_path dest)) >>= check_stat dest size)
          (Sized (partial_path dest))
  check_file-Sized size =
      Yields-bind (attempt (read_file (partial_path dest))) (check_stat dest size)
        (record { at = λ d h. read_file-Seen (partial_path dest) d }) (check_stat-Sized size)

  check_meta-Sized :
      (size : ℤ) (sha256 : Text) (o : Option PartialMeta)
      → Yields (λ _. Unit {0}) (check_meta dest size sha256 o) (Sized (partial_path dest))
  unfolding check_meta
  check_meta-Sized size sha256 none = drop_partial-Sized
  check_meta-Sized size sha256 (some m) =
      search (yields_rules, drop_partial-Sized, check_file-Sized)

  check_sidecar-Sized :
      (formats : Formats) (size : ℤ) (sha256 : Text) (r : Result Bytes)
      → Yields
          (λ _. Unit {0})
          (check_sidecar formats dest size sha256 r)
          (Sized (partial_path dest))
  unfolding check_sidecar
  check_sidecar-Sized formats size sha256 (ok b) =
      check_meta-Sized size sha256 (formats.partial_meta.unmarshal b)
  check_sidecar-Sized formats size sha256 (err e) = search (yields_rules, zero-Sized)

  -- Whichever calls fail, an offset that CheckPartial returns is 0 or the length of the partial
  -- file.
  pub check_partial-Sized :
      (formats : Formats) (size : ℤ) (sha256 : Text)
      → Yields (λ _. Unit {0}) (check_partial formats dest size sha256) (Sized (partial_path dest))
  unfolding check_partial
  check_partial-Sized formats size sha256 =
      Yields-bind (attempt (read_file (meta_path dest))) (check_sidecar formats dest size sha256)
        (record { at = λ d h. tt }) (check_sidecar-Sized formats size sha256)
