-- ===== src/Transfer/Receiver/Opened.antt =====
-- `Run` of the receiver up to the start of the loop, where no call fails.
use p2pft.Prelude.{
  ℕ, zero, suc, ◌<◌, ◌≡◌, refl, ap, ◌∙◌, ◌⊎◌, inl, inr, some, [], ◌∷◌, length, take-eq_self, Bytes,
  Text, arith, Option,
}
use p2pft.Io.Result.{ok}
use p2pft.Io.Disk.{Disk, update, spend}
use p2pft.Io.Disk.Quiet.{
  IsQuiet, spend-IsQuiet, update_self, update_same, update_ne, create-ok, open_append-ok,
  write_file-ok, read_file-ok,
}
use p2pft.Transfer.Protocol.{Formats}
use p2pft.Transfer.Peer.{Peer}
use p2pft.Transfer.Resume.{partial_path, meta_path, write_meta}
use p2pft.Transfer.Resume.Paths.{meta_path-ne-partial_path}
use p2pft.Transfer.Receiver.{
  Receiver, open_partial, seed, seed_hash_from_partial, receive_all, finish, receive_file,
}
use p2pft.Io.Exec.{follow}

-- The prefix that a transfer from `offset` continues.
abbrev pub Prior : Disk → Text → ℕ → Bytes → Type 0
Prior d path offset prior =
    ((offset ≡ 0) × (prior ≡ []))
    ⊎ ((0 < offset) × (length prior ≡ offset) × (d.files path ≡ some prior))

pub open_partial-ok :
    (path : Text) (offset : ℕ) (prior : Bytes) (d : Disk)
    → IsQuiet d
    → Prior d path offset prior
    → open_partial path offset d
      ≡ (ok tt, record (spend d) { files = update d.files path (some prior) })
open_partial-ok path offset prior d q (inl (z, e)) = rw (z, e) (create-ok d q path)
open_partial-ok path offset prior d q (inr (lo, n, e)) =
    rw (update_same d.files path (some prior) e) (ground (arith, open_append-ok d q path prior e))

module _ (formats : Formats) (r : Receiver) where
  pub seed-ok :
      (offset : ℕ) (prior : Bytes) (s : Peer)
      → IsQuiet s.disk
      → s.disk.files (partial_path r.dest) ≡ some prior
      → length prior ≡ offset
      → s.absorbed ≡ []
      → (d : Disk) × (seed formats r offset s ≡ (ok tt, record s { disk = d; absorbed = prior }))
        × IsQuiet d
        × (d.files ≡ s.disk.files)
  unfolding seed_hash_from_partial
  seed-ok zero [] s q e n a = (s.disk, ground arith, q, refl)
  seed-ok zero (x ∷ xs) s q e n a = absurd (omega arith)
  seed-ok (suc k) prior s q e n a = (
    spend s.disk,
    ground (arith, read_file-ok s.disk q (partial_path r.dest) prior e, take-eq_self (suc k) prior),
    spend-IsQuiet s.disk q,
    refl,
  )

  -- The sidecar of this transfer.
  abbrev pub sidecar : Bytes
  sidecar = formats.partial_meta.marshal (record { size = r.size; sha256 = r.sha256 })

  pub write_meta-ok :
      (d : Disk)
      → IsQuiet d
      → write_meta formats r.dest (record { size = r.size; sha256 = r.sha256 }) d
        ≡ (ok tt, record (spend d) { files = update d.files (meta_path r.dest) (some sidecar) })
  unfolding write_meta
  write_meta-ok d q = write_file-ok d q (meta_path r.dest) sidecar

  -- The state in which the loop starts, which has `prior` in the partial file and in the hash.
  pub record Opened (offset : ℕ) (prior : Bytes) (s t : Peer) : Type 0 where
    pub leads :
        receive_file formats r offset s
        ≡ follow
            (receive_all (partial_path r.dest) r.on_progress offset t).0
            (λ _. finish formats r)
            (receive_all (partial_path r.dest) r.on_progress offset t).1
    pub conn : t.conn ≡ s.conn
    pub quiet : IsQuiet t.disk
    pub files :
        t.disk.files
        ≡ update
            (update s.disk.files (partial_path r.dest) (some prior))
            (meta_path r.dest)
            (some (sidecar))
    pub absorbed : t.absorbed ≡ prior
    pub progress : t.progress ≡ s.progress
    pub at_partial : t.disk.files (partial_path r.dest) ≡ some prior

  opens :
      (offset : ℕ) (s t : Peer) (d₁ d₂ : Disk)
      → open_partial (partial_path r.dest) offset s.disk ≡ (ok tt, d₁)
      → write_meta formats r.dest (record { size = r.size; sha256 = r.sha256 }) d₁ ≡ (ok tt, d₂)
      → seed formats r offset (record s { disk = d₂; absorbed = [] }) ≡ (ok tt, t)
      → receive_file formats r offset s
        ≡ follow
            (receive_all (partial_path r.dest) r.on_progress offset t).0
            (λ _. finish formats r)
            (receive_all (partial_path r.dest) r.on_progress offset t).1
  unfolding receive_file
  opens offset s t d₁ d₂ a b c = rw (a, b, c) refl

  pub opened-ok :
      (offset : ℕ) (prior : Bytes) (s : Peer)
      → IsQuiet s.disk
      → length prior ≡ offset
      → Prior s.disk (partial_path r.dest) offset prior
      → (t : Peer) × Opened offset prior s t
  opened-ok offset prior s q n p =
      let P = partial_path r.dest in
      let M = meta_path r.dest in
      let f₁ = update s.disk.files P (some prior) in
      let d₁ : Disk = record (spend s.disk) { files = f₁ } in
      let q₁ : IsQuiet d₁ = spend-IsQuiet s.disk q in
      let d₂ : Disk = record (spend d₁) { files = update f₁ M (some (sidecar)) } in
      let q₂ : IsQuiet d₂ = spend-IsQuiet d₁ q₁ in
      let at : d₂.files P ≡ some prior =
        update_ne f₁ M P (some (sidecar)) (meta_path-ne-partial_path r.dest)
        ∙ update_self s.disk.files P (some prior) in
      let (d₃, e₃, q₃, k₃) =
        seed-ok offset prior (record s { disk = d₂; absorbed = [] }) q₂ at n refl in
      (
        record s { disk = d₃; absorbed = prior },
        record {
          leads =
              opens offset s (record s { disk = d₃; absorbed = prior }) d₁ d₂
                (open_partial-ok P offset prior s.disk q p) (write_meta-ok d₁ q₁) e₃;
          conn = refl;
          quiet = q₃;
          files = k₃;
          absorbed = refl;
          progress = refl;
          at_partial = ap (λ (f : Text → Option Bytes). f P) k₃ ∙ at;
        },
      )
