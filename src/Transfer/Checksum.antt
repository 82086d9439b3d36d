-- ===== src/Transfer/Checksum.antt =====
-- internal/transfer/checksum.go: the digest of a file, and a writer that hashes what it writes.
use p2pft.Prelude.{ltb, ◌++◌, if◌then◌else◌, take, Bytes, Text}
use p2pft.Io.Exec.{Exec, pure, ◌>>=◌}
use p2pft.Io.Disk.{Disk, read_file, append}
use p2pft.Transfer.Hex.{hex_encode}
use p2pft.Transfer.Protocol.{Digest}
use p2pft.Transfer.Peer.{Peer}

module _ (digest : Digest) where
  unfoldable pub file_sha256 : Text → Exec Disk Text
  file_sha256 path = do b ← read_file path; pure (hex_encode (digest.sum b))

  -- `HashingWriter.Sum` over the bytes that the hash has absorbed.
  abbrev pub hash_sum : Peer → Bytes
  hash_sum s = digest.sum s.absorbed

-- `HashingWriter.Write` over the file at `path`: the hash absorbs what the file took.
unfoldable pub hashing_write : Text → Bytes → Exec Peer (Unit {0})
hashing_write path p s =
    let (n, r, d) = append path p s.disk in
    (r, record s { disk = d; absorbed = if ltb 0 n then s.absorbed ++ take n p else s.absorbed })
