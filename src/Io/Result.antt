-- ===== src/Io/Result.antt =====
-- Go's `(value, error)` pairs, and error values as `errors.Is` sees them.
use p2pft.Prelude.{String, Bool, true, false}

-- `message` is `errors.New` or `fmt.Errorf` without `%w`, `wrap` is `fmt.Errorf` with `%w`.
-- `failed` stands for any error of the network or of the operating system but `os.ErrNotExist`.
-- `out_of_fuel` is no Go value: it marks a loop of the model that has used up its rounds.
pub data Error : Type 0 where
  eof unexpected_eof short_buffer frame_too_large not_exist failed out_of_fuel : Error
  message : String → Error
  wrap : String → Error → Error

pub data Result {ℓ} (A : Type ℓ) : Type ℓ where
  ok : A → Result A
  err : Error → Result A

-- `errors.Is(err, io.EOF)`
abbrev pub is_eof : Error → Bool
is_eof eof = true
is_eof (wrap _ e) = is_eof e
is_eof _ = false

-- `errors.Is(err, os.ErrNotExist)`
abbrev pub is_not_exist : Error → Bool
is_not_exist not_exist = true
is_not_exist (wrap _ e) = is_not_exist e
is_not_exist _ = false

abbrev pub annotated {ℓ} : {A : Type ℓ} → String → Result A → Result A
annotated s (ok a) = ok a
annotated s (err e) = err (wrap s e)
