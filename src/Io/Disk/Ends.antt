-- ===== src/Io/Disk/Ends.antt =====
-- No system call runs out of fuel.
use p2pft.Prelude.{Option, none, some, [], Bytes, Text}
use p2pft.Io.Result.{Result, ok, err}
use p2pft.Io.Exec.Ends.{Ends, Ended}
use p2pft.Io.Disk.{
  Event, runs, short, fails, Disk, look_up, found, store, write_whole, append_event, outcome, move,
  rename_event, opened, read_file, create, remove, write_file, open_append, append, tick, rename,
  next_event, spend,
}

look_up-Ended : (e : Event) (p : Text) (d : Disk) → Ended (look_up e p d)
look_up-Ended (fails k) p d = tt
look_up-Ended runs p d = in_file (d.files p)
  where
    in_file : (o : Option Bytes) → Ended (found o)
    in_file none = tt
    in_file (some b) = tt
look_up-Ended (short k) p d = in_file (d.files p)
  where
    in_file : (o : Option Bytes) → Ended (found o)
    in_file none = tt
    in_file (some b) = tt

pub read_file-Ends : (p : Text) → Ends (read_file p)
unfolding read_file
read_file-Ends p = record { at = λ d. look_up-Ended (next_event d.events) p d }

pub open_append-Ends : (p : Text) → Ends (open_append p)
unfolding open_append
open_append-Ends p = record {
  at = λ d. same (look_up (next_event d.events) p d) (look_up-Ended (next_event d.events) p d);
}
  where
    same : (r : Result Bytes) → Ended r → Ended (opened r)
    same (ok b) h = tt
    same (err e) h = h

pub create-Ends : (p : Text) → Ends (create p)
unfolding create
create-Ends p = record { at = λ d. event (next_event d.events) (spend d) }
  where
    event : (e : Event) (d : Disk) → Ended (store e p (some []) d).0
    event (fails k) d = tt
    event runs d = tt
    event (short k) d = tt

pub remove-Ends : (p : Text) → Ends (remove p)
unfolding remove
remove-Ends p = record { at = λ d. tt }

pub write_file-Ends : (p : Text) (b : Bytes) → Ends (write_file p b)
unfolding write_file
write_file-Ends p b = record { at = λ d. event (next_event d.events) (spend d) }
  where
    event : (e : Event) (d : Disk) → Ended (write_whole e p b d).0
    event (fails k) d = tt
    event runs d = tt
    event (short k) d = tt

pub append-Ended : (p : Text) (b : Bytes) (d : Disk) → Ended (append p b d).1
unfolding append
append-Ended p b d = event (next_event d.events) (spend d)
  where
    event : (e : Event) (d : Disk) → Ended (append_event e p b d).1
    event (fails k) d = tt
    event runs d = tt
    event (short k) d = tt

pub tick-Ends : Ends tick
unfolding tick
tick-Ends = record { at = λ d. event (next_event d.events) }
  where
    event : (e : Event) → Ended (outcome e)
    event (fails k) = tt
    event runs = tt
    event (short k) = tt

pub rename-Ends : (p q : Text) → Ends (rename p q)
unfolding rename
rename-Ends p q = record { at = λ d. event (next_event d.events) (spend d) }
  where
    moved : (o : Option Bytes) (d : Disk) → Ended (move o p q d).0
    moved none d = tt
    moved (some b) d = tt

    event : (e : Event) (d : Disk) → Ended (rename_event e p q d).0
    event (fails k) d = tt
    event runs d = moved (d.files p) d
    event (short k) d = moved (d.files p) d
