-- ===== src/Io/Disk.antt =====
-- The file system of one machine, as the `os` calls of the program see it.
pub mod Quiet
pub mod Keeps
pub mod Ends
use p2pft.Prelude.{
  ℕ, Option, none, some, List, [], ◌∷◌, ◌++◌, if◌then◌else◌, length, take, min, Bytes, Text,
  eqb_text,
}
use p2pft.Io.Result.{Result, ok, err, not_exist, failed}
use p2pft.Io.Exec.{Exec}

-- What the operating system does to a call: it runs; a read gives at most `k` bytes; or the call
-- fails, a write after `k` bytes.
pub data Event : Type 0 where
  runs : Event
  short : ℕ → Event
  fails : ℕ → Event

-- `events` are those of the calls to come, and calls behind the last event run.
pub record Disk : Type 0 where
  pub files : Text → Option Bytes
  pub events : List Event

abbrev pub update : (Text → Option Bytes) → Text → Option Bytes → Text → Option Bytes
update files p v q = if eqb_text p q then v else files q

abbrev pub next_event : List Event → Event
next_event [] = runs
next_event (e ∷ es) = e

abbrev pub later_events : List Event → List Event
later_events [] = []
later_events (e ∷ es) = es

abbrev pub spend : Disk → Disk
spend d = record d { events = later_events d.events }

abbrev pub found : Option Bytes → Result Bytes
found none = err not_exist
found (some b) = ok b

abbrev pub look_up : Event → Text → Disk → Result Bytes
look_up (fails _) p d = err failed
look_up _ p d = found (d.files p)

-- `os.ReadFile`; `os.Stat` and `os.Open` of a file that is there fail in the same ways.
unfoldable pub read_file : Text → Exec Disk Bytes
read_file p d = (look_up (next_event d.events) p d, spend d)

abbrev pub store : Event → Text → Option Bytes → Exec Disk (Unit {0})
store (fails _) p v d = (err failed, d)
store _ p v d = (ok tt, record d { files = update d.files p v })

-- `os.Create`
unfoldable pub create : Text → Exec Disk (Unit {0})
create p d = store (next_event d.events) p (some []) (spend d)

-- `_ = os.Remove(p)`: an error, such as that of a missing file, is dropped by every caller.
unfoldable pub remove : Text → Exec Disk (Unit {0})
remove p d = (ok tt, (store (next_event d.events) p none (spend d)).1)

abbrev pub write_whole : Event → Text → Bytes → Exec Disk (Unit {0})
write_whole (fails k) p b d = (err failed, record d { files = update d.files p (some (take k b)) })
write_whole _ p b d = (ok tt, record d { files = update d.files p (some b) })

-- `os.WriteFile`: it truncates first, and a failure may leave part of the data.
unfoldable pub write_file : Text → Bytes → Exec Disk (Unit {0})
write_file p b d = write_whole (next_event d.events) p b (spend d)

-- `os.OpenFile` for appending, with no `O_CREATE`: the file has to be there.
abbrev pub opened : Result Bytes → Result (Unit {0})
opened (ok _) = ok tt
opened (err e) = err e

unfoldable pub open_append : Text → Exec Disk (Unit {0})
open_append p d = (opened (look_up (next_event d.events) p d), spend d)

abbrev pub content : Option Bytes → Bytes
content none = []
content (some b) = b

-- `f.Write(b)` at the end of an open file: the count of bytes written, the error, the new disk.
abbrev pub append_event : Event → Text → Bytes → Disk → ℕ × Result (Unit {0}) × Disk
append_event (fails k) p b d = (
  min k (length b),
  err failed,
  record d { files = update d.files p (some (content (d.files p) ++ take k b)) },
)
append_event _ p b d =
    (length b, ok tt, record d { files = update d.files p (some (content (d.files p) ++ b)) })

unfoldable pub append : Text → Bytes → Disk → ℕ × Result (Unit {0}) × Disk
append p b d = append_event (next_event d.events) p b (spend d)

abbrev pub outcome : Event → Result (Unit {0})
outcome (fails _) = err failed
outcome _ = ok tt

-- A call that changes no file: `f.Sync`, `f.Close`, `f.Seek`.
unfoldable pub tick : Exec Disk (Unit {0})
tick d = (outcome (next_event d.events), spend d)

abbrev pub move : Option Bytes → Text → Text → Exec Disk (Unit {0})
move none p q d = (err not_exist, d)
move (some b) p q d = (ok tt, record d { files = update (update d.files p none) q (some b) })

abbrev pub rename_event : Event → Text → Text → Exec Disk (Unit {0})
rename_event (fails _) p q d = (err failed, d)
rename_event _ p q d = move (d.files p) p q d

-- `os.Rename(p, q)` replaces `q` in one step.
unfoldable pub rename : Text → Text → Exec Disk (Unit {0})
rename p q d = rename_event (next_event d.events) p q (spend d)
