-- ===== src/Transfer/Resume/Check.antt =====
-- What CheckPartial finds, where no call fails: the bytes that a transfer goes on from.
use p2pft.Prelude.{
  fun_ext, ℕ, ◌≡◌, refl, ap, ◌∙◌, ◌⊎◌, inl, inr, ℤ, pos, Bool, true, false, ◌&&◌, Option, none,
  some, [], if◌then◌else◌, length, ltb_ℤ, leb_ℤ, eqb_ℤ, eqb_text, Bytes, Text, arith, Bool-cases,
}
use p2pft.Io.Result.{ok, err, Result}
use p2pft.Io.Disk.{Disk, update, spend, found}
use p2pft.Io.Disk.Quiet.{IsQuiet, spend-IsQuiet, read_file-found, remove-ok}
use p2pft.Transfer.Protocol.{Formats, PartialMeta}
use p2pft.Transfer.Resume.{
  partial_path, meta_path, drop_partial, check_stat, check_meta, check_sidecar, check_partial,
}

-- The content of a partial file that is shorter than the whole.
abbrev pub shorter : ℤ → Option Bytes → Bytes
shorter size none = []
shorter size (some b) = if ltb_ℤ (pos (length b)) size then b else []

abbrev pub matches : ℤ → Text → Option PartialMeta → Bool
matches size sha256 none = false
matches size sha256 (some m) = eqb_ℤ m.size size && eqb_text m.sha256 sha256

whole-shorter : (a b : ℤ) → leb_ℤ a b ≡ true → ltb_ℤ b a ≡ false
whole-shorter a b h = ground arith

part-shorter : (a b : ℤ) → leb_ℤ a b ≡ false → ltb_ℤ b a ≡ true
part-shorter a b h = ground arith

module _ (formats : Formats) (dest : Text) (size : ℤ) (sha256 : Text) where
  abbrev pub describes : Option Bytes → Bool
  describes none = false
  describes (some b) = matches size sha256 (formats.partial_meta.unmarshal b)

  -- The bytes of the partial file, if its sidecar describes this transfer and they are not all.
  abbrev pub resumable : (Text → Option Bytes) → Bytes
  resumable files =
      if describes (files (meta_path dest)) then shorter size (files (partial_path dest)) else []

  pub drop_partial-ok :
      (d : Disk)
      → IsQuiet d
      → drop_partial dest d ≡ (
        ok 0,
        record (spend (spend d)) {
          files = update (update d.files (meta_path dest) none) (partial_path dest) none;
        },
      )
  unfolding drop_partial
  drop_partial-ok d q = rw (
    remove-ok d q (meta_path dest),
    remove-ok (record (spend d) { files = update d.files (meta_path dest) none })
        (spend-IsQuiet d q) (partial_path dest),
  )

  abbrev Checks : Disk → Bytes → Result ℕ × Disk → Type 0
  Checks d prior (ok n, d') =
      (n ≡ length prior)
      × IsQuiet d'
      × ((q : Text)
          → eqb_text (partial_path dest) q ≡ false
          → eqb_text (meta_path dest) q ≡ false
          → d'.files q ≡ d.files q)
      × ((prior ≡ []) ⊎ (d'.files (partial_path dest) ≡ some prior))
  Checks d prior (err e, d') = ⊥

  drop_partial-Checks : (d : Disk) → IsQuiet d → Checks d [] (drop_partial dest d)
  drop_partial-Checks d q =
      rw (drop_partial-ok d q)
        (refl, spend-IsQuiet (spend d) (spend-IsQuiet d q), (λ p a b. rw (a, b) refl), inl refl)

  check_stat-Checks :
      (d : Disk)
      → IsQuiet d
      → (o : Option Bytes) → d.files (partial_path dest) ≡ o
      → Checks d (shorter size o) (check_stat dest size (found o) d)
  unfolding check_stat
  check_stat-Checks d q none e =
      rw (remove-ok d q (meta_path dest)) (refl, spend-IsQuiet d q, (λ p a b. rw b refl), inl refl)
  check_stat-Checks d q (some b) e = elim (Bool-cases (leb_ℤ size (pos (length b)))) [
    | inl whole ↦ rw (whole, whole-shorter size (pos (length b)) whole) (drop_partial-Checks d q)
    | inr part ↦
        rw (part, part-shorter size (pos (length b)) part) (refl, q, (λ p a b. refl), inr e)
  ]

  check_meta-Checks :
      (d : Disk)
      → IsQuiet d
      → (o : Option PartialMeta)
      → Checks d
          (if matches size sha256 o then shorter size (d.files (partial_path dest)) else [])
          (check_meta dest size sha256 o d)
  unfolding check_meta
  check_meta-Checks d q none = drop_partial-Checks d q
  check_meta-Checks d q (some m) = elim (Bool-cases (eqb_ℤ m.size size)) [
    | inr other ↦ rw other (drop_partial-Checks d q)
    | inl same ↦ rw same (elim (Bool-cases (eqb_text m.sha256 sha256)) [
      | inr other ↦ rw other (drop_partial-Checks d q)
      | inl same' ↦
          rw (same', read_file-found d q (partial_path dest))
            (check_stat-Checks (spend d) (spend-IsQuiet d q) (d.files (partial_path dest)) refl)
    ])
  ]

  check_sidecar-Checks :
      (d : Disk)
      → IsQuiet d
      → (o : Option Bytes)
      → Checks d
          (if describes o then shorter size (d.files (partial_path dest)) else [])
          (check_sidecar formats dest size sha256 (found o) d)
  unfolding check_sidecar
  check_sidecar-Checks d q none = (refl, q, (λ p a b. refl), inl refl)
  check_sidecar-Checks d q (some b) = check_meta-Checks d q (formats.partial_meta.unmarshal b)

  check_partial-Checks :
      (d : Disk)
      → IsQuiet d
      → Checks d (resumable d.files) (check_partial formats dest size sha256 d)
  unfolding check_partial
  check_partial-Checks d q =
      rw (read_file-found d q (meta_path dest))
        (check_sidecar-Checks (spend d) (spend-IsQuiet d q) (d.files (meta_path dest)))

  -- The files without those of this transfer.
  abbrev pub besides : (Text → Option Bytes) → Text → Option Bytes
  besides files = update (update files (partial_path dest) none) (meta_path dest) none

  pub besides-congr :
      (f g : Text → Option Bytes)
      → ((q : Text)
          → eqb_text (partial_path dest) q ≡ false
          → eqb_text (meta_path dest) q ≡ false
          → f q ≡ g q)
      → besides f ≡ besides g
  besides-congr f g h = fun_ext (λ q. ground (arith, h q))

  -- Where no call fails, CheckPartial returns the number of bytes that can be resumed: the length
  -- of the partial file if its sidecar decodes to this size and hash and it is shorter than the
  -- whole, and 0 otherwise. The partial file is kept if some of its bytes are resumed, and no file
  -- but the partial file and its sidecar has changed.
  pub check_partial-resumable :
      (d : Disk)
      → IsQuiet d
      → (d' : Disk) × (check_partial formats dest size sha256 d
          ≡ (ok (length (resumable d.files)), d'))
        × IsQuiet d'
        × (besides d'.files ≡ besides d.files)
        × ((resumable d.files ≡ []) ⊎ (d'.files (partial_path dest) ≡ some (resumable d.files)))
  check_partial-resumable d q =
      open_result (check_partial formats dest size sha256 d) refl (check_partial-Checks d q)
    where
      open_result :
          (r : Result ℕ × Disk)
          → check_partial formats dest size sha256 d ≡ r
          → Checks d (resumable d.files) r
          → (d' : Disk) × (check_partial formats dest size sha256 d
              ≡ (ok (length (resumable d.files)), d'))
            × IsQuiet d'
            × (besides d'.files ≡ besides d.files)
            × ((resumable d.files ≡ []) ⊎ (d'.files (partial_path dest) ≡ some (resumable d.files)))
      open_result (ok n, d') e (k, q', o, p) =
          (d', e ∙ ap (λ (m : ℕ). (ok m, d')) k, q', besides-congr d'.files d.files o, p)
      open_result (err z, d') e h = absurd h
