-- ===== src/Tests/Closer.antt =====
-- A context that is cancelled when the run has just returned.
use p2pft.Prelude.{◌≡◌, refl, ◌⊎◌, true, false}
use p2pft.Transfer.Closer.{
  gone, Watch, stop, on_cancelled, context_closer, Watching, begins, then_watches, cancels, returns,
  sees_cancelled,
}
use p2pft.Transfer.Closer.Watched.{Leaves, Watching-Leaves}

abbrev late_cancel : Watch
late_cancel = record { cancelled = true; done = true; watcher = gone; closes = 1; running = false }

late_cancel_run : Watching false late_cancel
unfolding stop on_cancelled
late_cancel_run =
    let w = context_closer false in
    let v : Watch = stop w in
    then_watches (then_watches (then_watches begins (returns w refl)) (cancels v))
      (sees_cancelled (record v { cancelled = true }) refl refl)

Watching-Leaves_example :
    ((late_cancel.closes ≡ 0) ⊎ ((late_cancel.closes ≡ 1) × (late_cancel.cancelled ≡ true)))
    × ((late_cancel.running ≡ true) ⊎ Leaves late_cancel)
Watching-Leaves_example = Watching-Leaves false late_cancel late_cancel_run
