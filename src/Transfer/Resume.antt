-- ===== src/Transfer/Resume.antt =====
-- internal/transfer/resume.go: the partial file and its sidecar.
pub mod Paths
pub mod Check
pub mod Offset
pub mod Ends
pub mod Keeps
pub mod Dropped
use p2pft.Prelude.{
  ℕ, ℤ, pos, Bool, not, ◌||◌, Option, none, some, ◌++◌, leb_ℤ, eqb_ℤ, if◌then◌else◌, length, codes,
  eqb_text, Bytes, Text,
}
use p2pft.Io.Result.{Result, ok, err, is_not_exist}
use p2pft.Io.Exec.{Exec, pure, raise, attempt, ◌>>=◌, ◌>>◌}
use p2pft.Io.Disk.{Disk, read_file, remove, write_file}
use p2pft.Transfer.Protocol.{PartialMeta, Formats, Codec}

abbrev pub partial_path : Text → Text
partial_path dest = dest ++ codes ".partial"

abbrev pub meta_path : Text → Text
meta_path dest = dest ++ codes ".partial.meta"

unfoldable pub drop_partial : Text → Exec Disk ℕ
drop_partial dest = do remove (meta_path dest); remove (partial_path dest); pure 0

-- The tests on `os.Stat` of the partial file.
unfoldable pub check_stat : Text → ℤ → Result Bytes → Exec Disk ℕ
unfolding drop_partial
check_stat dest size (ok b) =
    if leb_ℤ size (pos (length b)) then drop_partial dest else pure (length b)
check_stat dest size (err e) =
    if is_not_exist e then (do remove (meta_path dest); pure 0) else raise e

-- The tests on the decoded sidecar.
unfoldable pub check_meta : Text → ℤ → Text → Option PartialMeta → Exec Disk ℕ
unfolding drop_partial check_stat
check_meta dest size sha256 none = drop_partial dest
check_meta dest size sha256 (some m) =
    if not (eqb_ℤ m.size size) || not (eqb_text m.sha256 sha256)
    then drop_partial dest
    else do stat ← attempt (read_file (partial_path dest)); check_stat dest size stat

module _ (formats : Formats) where
  -- The tests on `os.ReadFile` of the sidecar.
  unfoldable pub check_sidecar : Text → ℤ → Text → Result Bytes → Exec Disk ℕ
  unfolding check_meta
  check_sidecar dest size sha256 (ok b) =
      check_meta dest size sha256 (formats.partial_meta.unmarshal b)
  check_sidecar dest size sha256 (err e) = if is_not_exist e then pure 0 else raise e

  unfoldable pub check_partial : Text → ℤ → Text → Exec Disk ℕ
  unfolding check_sidecar
  check_partial dest size sha256 = do
    sidecar ← attempt (read_file (meta_path dest))
    check_sidecar dest size sha256 sidecar

  unfoldable pub write_meta : Text → PartialMeta → Exec Disk (Unit {0})
  write_meta dest m = write_file (meta_path dest) (formats.partial_meta.marshal m)

unfoldable pub cleanup_partial : Text → Exec Disk (Unit {0})
cleanup_partial dest = do remove (partial_path dest); remove (meta_path dest)
