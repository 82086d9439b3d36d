-- ===== src/Progress/Bar/Shared/Alone.antt =====
-- A goroutine that has a bar for itself.
use p2pft.Prelude.{ℕ, zero, suc}
use p2pft.Progress.Bar.{Bar}
use p2pft.Progress.Bar.Shared.{Place, go_on}

-- `n` steps of a goroutine, with none of another between them.
abbrev pub steps : ℕ → Place × Bar → Place × Bar
steps zero (p, b) = (p, b)
steps (suc n) (p, b) = steps n (go_on p b)
