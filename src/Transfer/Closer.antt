-- ===== src/Transfer/Closer.antt =====
-- internal/transfer/sender.go, `contextCloser`: the goroutine that closes the connection of a run
-- whose context is cancelled.
pub mod Watched
use p2pft.Prelude.{ℕ, suc, Bool, true, false, ◌≡◌}

-- The goroutine is at its `select`, or it has left.
pub data Watcher : Type 0 where
  selecting gone : Watcher

-- `done` says whether the channel is closed, and `closes` counts the calls of `c.Close`. `running`
-- says whether the deferred call of `stop` is still to come.
pub record Watch : Type 0 where
  pub cancelled : Bool
  pub done : Bool
  pub watcher : Watcher
  pub closes : ℕ
  pub running : Bool

-- The call of `contextCloser`, whose context may be cancelled already.
abbrev pub context_closer : Bool → Watch
context_closer cancelled = record {
  cancelled = cancelled;
  done = false;
  watcher = selecting;
  closes = 0;
  running = true;
}

-- `case <-ctx.Done()`
unfoldable pub on_cancelled : Watch → Watch
on_cancelled w = record w { watcher = gone; closes = suc w.closes }

-- `case <-done`
unfoldable pub on_done : Watch → Watch
on_done w = record w { watcher = gone }

-- The deferred call of `stop`.
unfoldable pub stop : Watch → Watch
stop w = record w { done = true; running = false }

-- A case of the `select` is taken only if its channel is closed.
pub data Watches : Watch → Watch → Type 0 where
  cancels : (w : Watch) → Watches w (record w { cancelled = true })
  returns : (w : Watch) → w.running ≡ true → Watches w (stop w)
  sees_cancelled :
      (w : Watch) → w.watcher ≡ selecting → w.cancelled ≡ true → Watches w (on_cancelled w)
  sees_done : (w : Watch) → w.watcher ≡ selecting → w.done ≡ true → Watches w (on_done w)

pub data Watching (cancelled : Bool) : Watch → Type 0 where
  begins : Watching cancelled (context_closer cancelled)
  then_watches : {v w : Watch} → Watching cancelled v → Watches v w → Watching cancelled w
