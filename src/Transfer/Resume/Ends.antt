-- ===== src/Transfer/Resume/Ends.antt =====
-- The resume code comes to an end.
use p2pft.Prelude.{Option, none, some, Bytes, Text, ℤ}
use p2pft.Io.Result.{Result, ok, err}
use p2pft.Io.Exec.Ends.{Ended, Ends, ends_rules}
use p2pft.Io.Disk.Ends.{read_file-Ends, remove-Ends, write_file-Ends}
use p2pft.Transfer.Protocol.{Formats, PartialMeta}
use p2pft.Transfer.Resume.{
  check_partial, check_sidecar, check_meta, check_stat, drop_partial, write_meta,
}

module _ (dest : Text) where
  drop_partial-Ends : Ends (drop_partial dest)
  unfolding drop_partial
  drop_partial-Ends = search (ends_rules, remove-Ends)

  check_stat-Ends : (size : ℤ) (r : Result Bytes) → Ended r → Ends (check_stat dest size r)
  unfolding check_stat
  check_stat-Ends size (ok b) h = search (ends_rules, drop_partial-Ends)
  check_stat-Ends size (err e) h = search (ends_rules, remove-Ends, h)

  check_meta-Ends :
      (size : ℤ) (sha256 : Text) (o : Option PartialMeta) → Ends (check_meta dest size sha256 o)
  unfolding check_meta
  check_meta-Ends size sha256 none = drop_partial-Ends
  check_meta-Ends size sha256 (some m) =
      search (ends_rules, drop_partial-Ends, read_file-Ends, check_stat-Ends)

module _ (formats : Formats) where
  check_sidecar-Ends :
      (dest : Text) (size : ℤ) (sha256 : Text) (r : Result Bytes)
      → Ended r
      → Ends (check_sidecar formats dest size sha256 r)
  unfolding check_sidecar
  check_sidecar-Ends dest size sha256 (ok b) h =
      check_meta-Ends dest size sha256 (formats.partial_meta.unmarshal b)
  check_sidecar-Ends dest size sha256 (err e) h = search (ends_rules, h)

  pub check_partial-Ends :
      (dest : Text) (size : ℤ) (sha256 : Text) → Ends (check_partial formats dest size sha256)
  unfolding check_partial
  check_partial-Ends dest size sha256 = search (ends_rules, read_file-Ends, check_sidecar-Ends)

  pub write_meta-Ends : (dest : Text) (m : PartialMeta) → Ends (write_meta formats dest m)
  unfolding write_meta
  write_meta-Ends dest m = search write_file-Ends
