-- ===== src/Transfer/Resume/Dropped.antt =====
-- CheckPartial, where no call fails, leaves the files as they are or removes the sidecar.
use p2pft.Prelude.{
  ℕ, ◌≡◌, refl, ◌⊎◌, inl, inr, ℤ, pos, Option, none, some, length, leb_ℤ, eqb_ℤ, eqb_text,
  eqb_text_refl, Bytes, Text, arith, Bool-cases,
}
use p2pft.Io.Result.{Result}
use p2pft.Io.Disk.{Disk, found, spend}
use p2pft.Io.Disk.Quiet.{IsQuiet, spend-IsQuiet, read_file-found, remove-ok}
use p2pft.Transfer.Protocol.{Formats, PartialMeta}
use p2pft.Transfer.Resume.{
  partial_path, meta_path, drop_partial, check_stat, check_meta, check_sidecar, check_partial,
}
use p2pft.Transfer.Resume.Check.{drop_partial-ok}

module _ (formats : Formats) (dest : Text) (size : ℤ) (sha256 : Text) where
  abbrev Drops : Disk → Result ℕ × Disk → Type 0
  Drops d r = (r.1.files ≡ d.files) ⊎ (r.1.files (meta_path dest) ≡ none)

  drop_partial-Drops : (d : Disk) → IsQuiet d → Drops d (drop_partial dest d)
  drop_partial-Drops d q =
      rw (drop_partial-ok formats dest size sha256 d q)
        (inr (ground (arith, eqb_text_refl (meta_path dest))))

  check_stat-Drops :
      (d : Disk) → IsQuiet d → (o : Option Bytes) → Drops d (check_stat dest size (found o) d)
  unfolding check_stat
  check_stat-Drops d q none =
      rw (remove-ok d q (meta_path dest)) (inr (rw (eqb_text_refl (meta_path dest)) refl))
  check_stat-Drops d q (some b) = elim (Bool-cases (leb_ℤ size (pos (length b)))) [
    | inl whole ↦ rw whole (drop_partial-Drops d q)
    | inr part ↦ rw part (inl refl)
  ]

  check_meta-Drops :
      (d : Disk) → IsQuiet d → (o : Option PartialMeta) → Drops d (check_meta dest size sha256 o d)
  unfolding check_meta
  check_meta-Drops d q none = drop_partial-Drops d q
  check_meta-Drops d q (some m) = elim (Bool-cases (eqb_ℤ m.size size)) [
    | inr other ↦ rw other (drop_partial-Drops d q)
    | inl same ↦ rw same (elim (Bool-cases (eqb_text m.sha256 sha256)) [
      | inr other ↦ rw other (drop_partial-Drops d q)
      | inl same' ↦
          rw (same', read_file-found d q (partial_path dest))
            (check_stat-Drops (spend d) (spend-IsQuiet d q) (d.files (partial_path dest)))
    ])
  ]

  pub check_partial-drops :
      (d : Disk)
      → IsQuiet d
      → ((check_partial formats dest size sha256 d).1.files ≡ d.files)
        ⊎ ((check_partial formats dest size sha256 d).1.files (meta_path dest) ≡ none)
  unfolding check_partial check_sidecar
  check_partial-drops d q =
      rw (read_file-found d q (meta_path dest)) (sidecar (d.files (meta_path dest)))
    where
      sidecar :
          (o : Option Bytes)
          → Drops (spend d) (check_sidecar formats dest size sha256 (found o) (spend d))
      sidecar none = inl refl
      sidecar (some b) =
          check_meta-Drops (spend d) (spend-IsQuiet d q) (formats.partial_meta.unmarshal b)
