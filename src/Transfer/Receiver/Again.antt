-- ===== src/Transfer/Receiver/Again.antt =====
-- What an attempt of the receiver leaves behind.
use p2pft.Prelude.{
  ◌<◌, ◌≡◌, refl, inl, inr, Bool-cases, pos, ltb_ℤ, eqb_ℤ_iff, eqb_text_refl, Option, some, [],
  ◌++◌, length, Bytes, Text,
}
use p2pft.Io.Result.{Result, Error, ok, err, wrap}
use p2pft.Io.Disk.{Disk}
use p2pft.Io.Disk.Quiet.{IsQuiet}
use p2pft.Transfer.Framing.{hash_size}
use p2pft.Transfer.Framing.Cut.{read_full-short}
use p2pft.Transfer.Protocol.{Formats, IsMeta}
use p2pft.Transfer.Peer.{Peer}
use p2pft.Transfer.Resume.{partial_path, meta_path}
use p2pft.Transfer.Resume.Check.{resumable}
use p2pft.Transfer.Receiver.{Receiver, finish}
use p2pft.Transfer.Receiver.Complete.{delivered}
use p2pft.Transfer.Receiver.Opened.{sidecar}

module _ (formats : Formats) (r : Receiver) where
  -- What an attempt at `whole` leaves for the next one: a prefix to go on from, or nothing.
  pub record Again (whole : Bytes) (d : Disk) : Type 0 where
    pub quiet : IsQuiet d
    pub rest : Bytes
    pub resumes : whole ≡ resumable formats r.dest r.size r.sha256 d.files ++ rest

  -- The attempt has succeeded, or it has failed and can be resumed.
  pub record Arrived (whole : Bytes) (files : Text → Option Bytes) (run : Result (Unit {0}) × Peer)
      : Type 0 where
    pub end : Peer
    pub ran : run ≡ (ok tt, end)
    pub delivers : end.disk.files ≡ delivered formats r files whole

  pub record Lost (whole : Bytes) (run : Result (Unit {0}) × Peer) : Type 0 where
    pub why : Error
    pub end : Peer
    pub ran : run ≡ (err why, end)
    pub again : Again whole end.disk

  -- The sidecar of this transfer and a prefix of the file can be resumed.
  pub Again-of :
      (whole kept missing : Bytes) (d : Disk)
      → IsMeta (record { size = r.size; sha256 = r.sha256 })
      → whole ≡ kept ++ missing
      → IsQuiet d
      → d.files (meta_path r.dest) ≡ some (sidecar formats r)
      → d.files (partial_path r.dest) ≡ some kept
      → Again whole d
  Again-of whole kept missing d meta parts q m p =
      elim (Bool-cases (ltb_ℤ (pos (length kept)) r.size)) [
        | inl part ↦ record {
          quiet = q;
          rest = missing;
          resumes =
              rw
                (
                  m,
                  formats.partial_meta.round_trip (record { size = r.size; sha256 = r.sha256 })
                      meta,
                  (eqb_ℤ_iff r.size r.size).1 refl,
                  eqb_text_refl r.sha256,
                  p,
                  part,
                )
                parts;
        }
        | inr all ↦ record {
          quiet = q;
          rest = whole;
          resumes =
              rw
                (
                  m,
                  formats.partial_meta.round_trip (record { size = r.size; sha256 = r.sha256 })
                      meta,
                  (eqb_ℤ_iff r.size r.size).1 refl,
                  eqb_text_refl r.sha256,
                  p,
                  all,
                )
                refl;
        }
      ]

  pub finish-short :
      (s : Peer)
      → length s.conn.incoming < hash_size
      → (e : Error) × (finish formats r s
          ≡ (err e, record s { conn = record s.conn { incoming = [] } }))
  unfolding finish
  finish-short s h =
      let (x, k) = read_full-short hash_size s.conn h in (wrap "read trailer hash" x, rw k refl)
