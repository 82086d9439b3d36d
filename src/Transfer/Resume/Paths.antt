-- ===== src/Transfer/Resume/Paths.antt =====
-- The destination, the partial file and the sidecar are three files.
use p2pft.Prelude.{◌≢◌, ap, codes, length, length-append, Text, arith}
use p2pft.Transfer.Resume.{partial_path, meta_path}

pub partial_path-ne : (dest : Text) → partial_path dest ≢ dest
partial_path-ne dest e = absurd (omega (arith, ap length e, length-append dest (codes ".partial")))

pub meta_path-ne : (dest : Text) → meta_path dest ≢ dest
meta_path-ne dest e =
    absurd (omega (arith, ap length e, length-append dest (codes ".partial.meta")))

pub meta_path-ne-partial_path : (dest : Text) → meta_path dest ≢ partial_path dest
meta_path-ne-partial_path dest e = absurd (
    omega (
      arith,
      ap length e,
      length-append dest (codes ".partial.meta"),
      length-append dest (codes ".partial"),
    ))
