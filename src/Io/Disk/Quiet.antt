-- ===== src/Io/Disk/Quiet.antt =====
-- The calls on a disk where none fails, and paths that differ.
use p2pft.Prelude.{
  ◌≡◌, ◌≢◌, refl, sym, ◌∙◌, ap, false, none, some, List, [], ◌∷◌, ◌++◌, length, All, Bytes, Text,
  eqb_text, eqb_text→eq, eqb_text_refl, arith, fun_ext, Option, Bool-cases, inl, inr,
}
use p2pft.Io.Result.{ok}
use p2pft.Io.Disk.{
  Event, fails, Disk, update, next_event, later_events, spend, found, read_file, create, remove,
  write_file, open_append, append, tick, rename,
}

abbrev pub Runs : Event → Type 0
Runs (fails _) = ⊥
Runs _ = Unit

-- No call to come fails.
abbrev pub IsQuiet : Disk → Type 0
IsQuiet d = All Runs d.events

pub next_event-Runs : (es : List Event) → All Runs es → Runs (next_event es)
next_event-Runs [] h = tt
next_event-Runs (e ∷ es) h = h.0

later_events-Runs : (es : List Event) → All Runs es → All Runs (later_events es)
later_events-Runs [] h = tt
later_events-Runs (e ∷ es) h = h.1

pub spend-IsQuiet : (d : Disk) → IsQuiet d → IsQuiet (spend d)
spend-IsQuiet d h = later_events-Runs d.events h

pub eqb_text-ne : (p q : Text) → p ≢ q → eqb_text p q ≡ false
eqb_text-ne p q h = ground (arith, eqb_text→eq p q)

pub update_self :
    (files : Text → Option Bytes) (p : Text) (v : Option Bytes) → update files p v p ≡ v
update_self files p v = rw (eqb_text_refl p)

pub update_ne :
    (files : Text → Option Bytes) (p q : Text) (v : Option Bytes)
    → p ≢ q
    → update files p v q ≡ files q
update_ne files p q v h = rw (eqb_text-ne p q h)

pub update-update :
    (files : Text → Option Bytes) (p : Text) (v w : Option Bytes)
    → update (update files p v) p w ≡ update files p w
update-update files p v w = fun_ext (λ q. ground arith)

module _ (d : Disk) (q : IsQuiet d) (p : Text) where
  pub read_file-ok : (b : Bytes) → d.files p ≡ some b → read_file p d ≡ (ok b, spend d)
  unfolding read_file
  read_file-ok b e = ground (arith, next_event-Runs d.events q)

  pub read_file-found : read_file p d ≡ (found (d.files p), spend d)
  unfolding read_file
  read_file-found = ground (arith, next_event-Runs d.events q)

  pub create-ok : create p d ≡ (ok tt, record (spend d) { files = update d.files p (some []) })
  unfolding create
  create-ok = ground (arith, next_event-Runs d.events q)

  pub remove-ok : remove p d ≡ (ok tt, record (spend d) { files = update d.files p none })
  unfolding remove
  remove-ok = ground (arith, next_event-Runs d.events q)

  pub write_file-ok :
      (b : Bytes)
      → write_file p b d ≡ (ok tt, record (spend d) { files = update d.files p (some b) })
  unfolding write_file
  write_file-ok b = ground (arith, next_event-Runs d.events q)

  pub open_append-ok : (b : Bytes) → d.files p ≡ some b → open_append p d ≡ (ok tt, spend d)
  unfolding open_append
  open_append-ok b e = ground (arith, next_event-Runs d.events q)

  pub append-ok :
      (a b : Bytes)
      → d.files p ≡ some a
      → append p b d
        ≡ (length b, ok tt, record (spend d) { files = update d.files p (some (a ++ b)) })
  unfolding append
  append-ok a b e = ground (arith, next_event-Runs d.events q)

  pub rename-ok :
      (to : Text) (b : Bytes)
      → d.files p ≡ some b
      → rename p to d
        ≡ (ok tt, record (spend d) { files = update (update d.files p none) to (some b) })
  unfolding rename
  rename-ok to b e = ground (arith, next_event-Runs d.events q)

pub tick-ok : (d : Disk) → IsQuiet d → tick d ≡ (ok tt, spend d)
unfolding tick
tick-ok d q = ground (arith, next_event-Runs d.events q)

pub update_same :
    (files : Text → Option Bytes) (p : Text) (v : Option Bytes)
    → files p ≡ v
    → update files p v ≡ files
update_same files p v e = fun_ext (λ q. elim (Bool-cases (eqb_text p q)) [
  | inl same ↦ rw same (sym e ∙ ap files (eqb_text→eq p q same))
  | inr other ↦ rw other refl
])
