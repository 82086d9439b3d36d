-- ===== src/Transfer/Peer.antt =====
-- One side of a transfer: its connection, its disk, the rolling hash and the progress calls.
use p2pft.Prelude.{ℕ, List, ◌++◌, [], ◌∷◌, Bytes}
use p2pft.Io.Result.{ok}
use p2pft.Io.Exec.{Exec}
use p2pft.Io.Exec.Ends.{Ends}
use p2pft.Io.Conn.{Conn}
use p2pft.Io.Disk.{Disk}

-- `absorbed` is what has been written to the `hash.Hash`, `progress` the arguments of `OnProgress`.
pub record Peer : Type 0 where
  pub conn : Conn
  pub disk : Disk
  pub absorbed : Bytes
  pub progress : List ℕ

abbrev pub on_conn : {A : Type 0} → Exec Conn A → Exec Peer A
on_conn m s = ((m s.conn).0, record s { conn = (m s.conn).1 })

abbrev pub on_disk : {A : Type 0} → Exec Disk A → Exec Peer A
on_disk m s = ((m s.disk).0, record s { disk = (m s.disk).1 })

abbrev pub report : ℕ → Exec Peer (Unit {0})
report n s = (ok tt, record s { progress = s.progress ++ n ∷ [] })

module _ {A : Type 0} where
  pub on_disk-Ends : (m : Exec Disk A) → Ends m → Ends (on_disk m)
  on_disk-Ends m k = record { at = λ s. k.at s.disk }

  pub on_conn-Ends : (m : Exec Conn A) → Ends m → Ends (on_conn m)
  on_conn-Ends m k = record { at = λ s. k.at s.conn }
