-- ===== src/Transfer/Resume/Keeps.antt =====
-- The resume code touches no file but the partial file and the sidecar.
use p2pft.Prelude.{◌≢◌, ℤ, Option, none, some, Bytes, Text}
use p2pft.Io.Result.{Result, ok, err}
use p2pft.Io.Exec.Keeps.{Keeps, keeps_rules}
use p2pft.Io.Disk.Keeps.{Holds, read_file-Keeps, remove-Keeps, write_file-Keeps}
use p2pft.Transfer.Protocol.{Formats, PartialMeta}
use p2pft.Transfer.Resume.{
  partial_path, meta_path, drop_partial, check_stat, check_meta, check_sidecar, check_partial,
  write_meta,
}

module _ (dest q : Text) (v : Option Bytes) (p : partial_path dest ≢ q)
    (m : meta_path dest ≢ q) where
  drop_partial-Keeps : Keeps (Holds q v) (drop_partial dest)
  unfolding drop_partial
  drop_partial-Keeps = search (keeps_rules, remove-Keeps)

  check_stat-Keeps : (size : ℤ) (r : Result Bytes) → Keeps (Holds q v) (check_stat dest size r)
  unfolding check_stat
  check_stat-Keeps size (ok b) = search (keeps_rules, drop_partial-Keeps)
  check_stat-Keeps size (err e) = search (keeps_rules, remove-Keeps)

  check_meta-Keeps :
      (size : ℤ) (sha256 : Text) (o : Option PartialMeta)
      → Keeps (Holds q v) (check_meta dest size sha256 o)
  unfolding check_meta
  check_meta-Keeps size sha256 none = drop_partial-Keeps
  check_meta-Keeps size sha256 (some x) =
      search (keeps_rules, drop_partial-Keeps, check_stat-Keeps, read_file-Keeps)

  check_sidecar-Keeps :
      (formats : Formats) (size : ℤ) (sha256 : Text) (r : Result Bytes)
      → Keeps (Holds q v) (check_sidecar formats dest size sha256 r)
  unfolding check_sidecar
  check_sidecar-Keeps formats size sha256 (ok b) = search check_meta-Keeps
  check_sidecar-Keeps formats size sha256 (err e) = search keeps_rules

  pub check_partial-Keeps :
      (formats : Formats) (size : ℤ) (sha256 : Text)
      → Keeps (Holds q v) (check_partial formats dest size sha256)
  unfolding check_partial
  check_partial-Keeps formats size sha256 =
      search (keeps_rules, read_file-Keeps, check_sidecar-Keeps)

  pub write_meta-Keeps :
      (formats : Formats) (x : PartialMeta) → Keeps (Holds q v) (write_meta formats dest x)
  unfolding write_meta
  write_meta-Keeps formats x = search write_file-Keeps
