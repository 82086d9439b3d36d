-- ===== src/Progress/Bar.antt =====
-- internal/progress/bar.go: the state of a `Bar`.
pub mod Lines
pub mod Shared
pub mod Wrapped
use p2pft.Prelude.{
  zero, suc, negsuc, ◌-◌, none, some, wrap_int64, ◌+ℤ◌, ℕ, ◌+◌, ◌*◌, ◌^◌, ◌&&◌, ◌||◌, not, true,
  false, Bool, ℤ, pos, List, [], ◌∷◌, ◌++◌, leb, leb_ℤ, if◌then◌else◌, Text, Bytes, Option,
}
use p2pft.Io.Result.{Error}

-- Nanoseconds.
abbrev pub refresh_interval : ℕ
refresh_interval = 50 * 10 ^ 6

abbrev pub default_bar_width : ℕ
default_bar_width = 30

-- `pct`: 0 where the total is not positive, 1 where it is reached, and else a quotient of float64.
pub data Share : Type 0 where
  nothing all : Share
  part : (current total : ℤ) → Share

abbrev pub share : ℤ → ℤ → Share
share current total =
    if leb_ℤ total (pos 0) then nothing else if leb_ℤ total current then all else part current total

-- `int(pct * float64(w))`, where `quotient` answers for a part: its value is that of float64.
abbrev pub filled_cells : (ℤ → ℤ → ℕ → ℤ) → Share → ℕ → ℤ
filled_cells quotient nothing w = pos 0
filled_cells quotient all w = pos w
filled_cells quotient (part current total) w = quotient current total w

-- `strings.Repeat` of one character.
abbrev pub repeated : ℕ → ℕ → Text
repeated c zero = []
repeated c (suc n) = c ∷ repeated c n

-- The two calls of `strings.Repeat`, which panics at a negative count.
abbrev pub cells : ℕ → ℤ → Option Text
cells w (pos n) = if leb n w then some (repeated b'#' n ++ repeated b'-' (w - n)) else none
cells w (negsuc n) = none

-- What `render` prints: the values that its format string gets; and the newline of `Finish`.
pub data Line : Type 0 where
  drawn : (label : Text) (current total : ℤ) (width : ℕ) → Line
  newline : Line

-- The text between the brackets of a line.
abbrev pub bar_of : (ℤ → ℤ → ℕ → ℤ) → Line → Option Text
bar_of quotient (drawn label current total width) =
    cells width (filled_cells quotient (share current total) width)
bar_of quotient newline = some []

-- A time is the number of nanoseconds since the zero `time.Time`. `out` is what has been printed.
pub record Bar : Type 0 where
  pub total : ℤ
  pub current : ℤ
  pub label : Text
  pub width : ℕ
  pub last : ℕ
  pub out : List Line
  pub done : Bool

-- `New`
abbrev pub new_bar : ℤ → Bar
new_bar total = record {
  total = total;
  current = pos 0;
  label = [];
  width = default_bar_width;
  last = 0;
  out = [];
  done = false;
}

unfoldable pub set_label : Text → Bar → Bar
set_label label b = record b { label = label }

abbrev pub render : Bar → Bar
render b = record b { out = b.out ++ drawn b.label b.current b.total b.width ∷ [] }

-- `shouldRender` at the time `now`
abbrev pub should_render : ℕ → ℤ → Bar → Bool
should_render now c b = not b.done && (leb (b.last + refresh_interval) now || leb_ℤ b.total c)

-- `Set` at the time `now`
unfoldable pub set : ℕ → ℤ → Bar → Bar
set now c b =
    if should_render now c b
    then render (record b { current = c; last = now })
    else record b { current = c }

-- `Tick` at the time `now`: `current` wraps.
abbrev pub tick_by : ℕ → ℤ → Bar → Bar
tick_by now delta b = set now (wrap_int64 (b.current +ℤ delta)) b

unfoldable pub finish_bar : Bar → Bar
finish_bar b =
    if b.done
    then b
    else let r : Bar = render (record b { done = true; current = b.total }) in
      record r { out = r.out ++ newline ∷ [] }

-- A call of an operation, and a sequence of calls.
pub data Call : Type 0 where
  labels : Text → Call
  sets : (now : ℕ) (c : ℤ) → Call
  ticks : (now : ℕ) (delta : ℤ) → Call
  finishes : Call

abbrev pub call : Call → Bar → Bar
call (labels t) b = set_label t b
call (sets now c) b = set now c b
call (ticks now delta) b = tick_by now delta b
call finishes b = finish_bar b

abbrev pub calls : List Call → Bar → Bar
calls [] b = b
calls (k ∷ ks) b = calls ks (call k b)

-- `barWriter.Write` at the time `now`, for an underlying writer with a state `W`.
abbrev pub write_wrapped {ℓ} :
    {W : Type ℓ}
    → (Bytes → W → (ℕ × Option Error) × W)
    → ℕ
    → Bytes
    → W × Bar
    → (ℕ × Option Error) × (W × Bar)
write_wrapped write now p (w, b) =
    let ((n, e), w') = write p w in ((n, e), (w', tick_by now (pos n) b))
