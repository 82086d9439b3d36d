-- ===== src/Io/Disk/Keeps.antt =====
-- A call changes no file but those that it names.
use p2pft.Prelude.{◌≡◌, ◌≢◌, ◌∙◌, Option, none, some, [], Bytes, Text}
use p2pft.Io.Exec.Keeps.{Keeps, Guards, Failed}
use p2pft.Io.Disk.{
  Event, runs, short, fails, Disk, update, store, write_whole, append_event, move, rename_event,
  read_file, create, remove, write_file, open_append, append, tick, rename, next_event, spend,
}
use p2pft.Io.Disk.Quiet.{update_ne}

module _ (q : Text) (v : Option Bytes) where
  -- The file at `q` is `v`.
  pub record Holds (d : Disk) : Type 0 where
    pub at : d.files q ≡ v

  pub read_file-Keeps : (p : Text) → Keeps Holds (read_file p)
  unfolding read_file
  read_file-Keeps p = record { at = λ d h. record { at = h.at } }

  pub tick-Keeps : Keeps Holds tick
  unfolding tick
  tick-Keeps = record { at = λ d h. record { at = h.at } }

  pub open_append-Keeps : (p : Text) → Keeps Holds (open_append p)
  unfolding open_append
  open_append-Keeps p = record { at = λ d h. record { at = h.at } }

  store-Holds :
      (e : Event) (p : Text) (w : Option Bytes) (d : Disk)
      → p ≢ q
      → Holds d
      → Holds (store e p w d).1
  store-Holds (fails k) p w d n h = h
  store-Holds runs p w d n h = record { at = update_ne d.files p q w n ∙ h.at }
  store-Holds (short k) p w d n h = record { at = update_ne d.files p q w n ∙ h.at }

  pub create-Keeps : (p : Text) → p ≢ q → Keeps Holds (create p)
  unfolding create
  create-Keeps p n = record {
    at = λ d h. store-Holds (next_event d.events) p (some []) (spend d) n (record { at = h.at });
  }

  pub remove-Keeps : (p : Text) → p ≢ q → Keeps Holds (remove p)
  unfolding remove
  remove-Keeps p n = record {
    at = λ d h. store-Holds (next_event d.events) p none (spend d) n (record { at = h.at });
  }

  write_whole-Holds :
      (e : Event) (p : Text) (b : Bytes) (d : Disk)
      → p ≢ q
      → Holds d
      → Holds (write_whole e p b d).1
  write_whole-Holds (fails k) p b d n h = record { at = update_ne d.files p q _ n ∙ h.at }
  write_whole-Holds runs p b d n h = record { at = update_ne d.files p q _ n ∙ h.at }
  write_whole-Holds (short k) p b d n h = record { at = update_ne d.files p q _ n ∙ h.at }

  pub write_file-Keeps : (p : Text) (b : Bytes) → p ≢ q → Keeps Holds (write_file p b)
  unfolding write_file
  write_file-Keeps p b n = record {
    at = λ d h. write_whole-Holds (next_event d.events) p b (spend d) n (record { at = h.at });
  }

  append_event-Holds :
      (e : Event) (p : Text) (b : Bytes) (d : Disk)
      → p ≢ q
      → Holds d
      → Holds (append_event e p b d).2
  append_event-Holds (fails k) p b d n h = record { at = update_ne d.files p q _ n ∙ h.at }
  append_event-Holds runs p b d n h = record { at = update_ne d.files p q _ n ∙ h.at }
  append_event-Holds (short k) p b d n h = record { at = update_ne d.files p q _ n ∙ h.at }

  pub append-Holds : (p : Text) (b : Bytes) (d : Disk) → p ≢ q → Holds d → Holds (append p b d).2
  unfolding append
  append-Holds p b d n h =
      append_event-Holds (next_event d.events) p b (spend d) n (record { at = h.at })

  move-Holds :
      (o : Option Bytes) (p to : Text) (d : Disk)
      → p ≢ q
      → to ≢ q
      → Holds d
      → Holds (move o p to d).1
  move-Holds none p to d n m h = h
  move-Holds (some b) p to d n m h = record {
    at = update_ne (update d.files p none) to q (some b) m ∙ update_ne d.files p q none n ∙ h.at;
  }

  rename_event-Holds :
      (e : Event) (p to : Text) (d : Disk)
      → p ≢ q
      → to ≢ q
      → Holds d
      → Holds (rename_event e p to d).1
  rename_event-Holds (fails k) p to d n m h = h
  rename_event-Holds runs p to d n m h = move-Holds (d.files p) p to d n m h
  rename_event-Holds (short k) p to d n m h = move-Holds (d.files p) p to d n m h

  pub rename-Keeps : (p to : Text) → p ≢ q → to ≢ q → Keeps Holds (rename p to)
  unfolding rename
  rename-Keeps p to n m = record {
    at = λ d h. rename_event-Holds (next_event d.events) p to (spend d) n m (record { at = h.at });
  }

  -- A rename that fails has changed nothing.
  pub rename-Guards : (p to : Text) → Guards Holds (rename p to)
  unfolding rename
  rename-Guards p to = record {
    at = λ d h f. guard (next_event d.events) (spend d) (record { at = h.at }) f;
  }
    where
      moved :
          (o : Option Bytes) (d : Disk)
          → Holds d
          → Failed (move o p to d).0
          → Holds (move o p to d).1
      moved none d h f = h
      moved (some b) d h f = absurd f

      guard :
          (e : Event) (d : Disk)
          → Holds d
          → Failed (rename_event e p to d).0
          → Holds (rename_event e p to d).1
      guard (fails k) d h f = h
      guard runs d h f = moved (d.files p) d h f
      guard (short k) d h f = moved (d.files p) d h f
