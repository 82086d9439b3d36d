-- ===== src/Transfer/Framing/RoundTrip.antt =====
-- Writing and reading one frame.
use p2pft.Prelude.{
  Bool, if◌then◌else◌, ℕ, suc, ◌%◌, ◌^◌, ◌≤◌, ◌<◌, ◌≡◌, refl, ap, ◌∙◌, none, false, [], ◌∷◌, ◌++◌,
  ◌==◌, length, length-append, take-append, drop-append, append_assoc, Bytes, IsByte, arith,
}
use p2pft.Io.Result.{ok, err, eof}
use p2pft.Io.Conn.{Conn, read_full, write}
use p2pft.Transfer.Framing.{max_frame_size, put_uint32, uint32, write_frame, read_frame}

-- The bytes of a frame.
abbrev pub frame : Bytes → Bytes
frame b = put_uint32 (length b) ++ b

pub uint32-put_uint32 : (n : ℕ) → n < 2 ^ 32 → uint32 (put_uint32 n) ≡ n
uint32-put_uint32 n h = omega arith

pub put_uint32-uint32 :
    (a b c d : ℕ)
    → IsByte a
    → IsByte b
    → IsByte c
    → IsByte d
    → put_uint32 (uint32 (a ∷ b ∷ c ∷ d ∷ [])) ≡ a ∷ b ∷ c ∷ d ∷ []
put_uint32-uint32 a b c d ha hb hc hd = ground arith

pub read_full-append :
    (c : Conn) (xs ys : Bytes)
    → c.incoming ≡ xs ++ ys
    → read_full (length xs) c ≡ (ok xs, record c { incoming = ys })
unfolding read_full
read_full-append c xs ys e =
    ground
      (arith, length-append xs ys, take-append (length xs) xs ys, drop-append (length xs) xs ys)

pub write-ok :
    (c : Conn) (p : Bytes)
    → c.room ≡ none
    → write p c ≡ (ok tt, record c { outgoing = c.outgoing ++ p })
unfolding write
write-ok c p e = ground arith

pub write_frame-ok :
    (c : Conn) (b : Bytes)
    → c.room ≡ none
    → length b < 2 ^ 32
    → write_frame b c ≡ (ok tt, record c { outgoing = c.outgoing ++ frame b })
unfolding write_frame
write_frame-ok c [] e h = rw (write-ok c (put_uint32 0) e) refl
write_frame-ok c (x ∷ xs) e h = rw (
  small,
  write-ok c (put_uint32 n) e,
  nonzero,
  write-ok (record c { outgoing = c.outgoing ++ put_uint32 n }) (x ∷ xs) e,
  append_assoc c.outgoing (put_uint32 n) (x ∷ xs),
)
  where
    n : ℕ
    n = suc (length xs)

    small : n % 2 ^ 32 ≡ n
    small = omega arith

    nonzero : (n == 0) ≡ false
    nonzero = ground arith

pub read_frame-ok :
    (c : Conn) (size : ℕ) (b rest : Bytes)
    → c.incoming ≡ frame b ++ rest
    → 0 < length b
    → length b ≤ max_frame_size
    → length b ≤ size
    → read_frame size c ≡ (ok b, record c { incoming = rest })
unfolding read_frame
read_frame-ok c size b rest e h0 h1 h2 =
    rw
      (
        read_full-append c (put_uint32 (length b)) (b ++ rest)
            (e ∙ append_assoc (put_uint32 (length b)) b rest),
        uint32-put_uint32 (length b) (omega arith),
      )
      (ground (arith, read_full-append (record c { incoming = b ++ rest }) b rest refl))

pub read_frame_end :
    (c : Conn) (size : ℕ) (rest : Bytes)
    → c.incoming ≡ frame [] ++ rest
    → read_frame size c ≡ (err eof, record c { incoming = rest })
unfolding read_frame
read_frame_end c size rest e = rw (read_full-append c (put_uint32 0) rest e) refl

-- What one side writes as a frame on a sound connection, up to the size of the reader's buffer and
-- of a frame, is what the other side reads; what follows the frame stays on the stream. The empty
-- frame reads as the end of the stream.
pub read_frame-write_frame :
    (w c : Conn) (size : ℕ) (b rest : Bytes)
    → w.room ≡ none
    → w.outgoing ≡ []
    → length b ≤ max_frame_size
    → length b ≤ size
    → c.incoming ≡ (write_frame b w).1.outgoing ++ rest
    → read_frame size c ≡ (if length b == 0 then err eof else ok b, record c { incoming = rest })
read_frame-write_frame w c size [] rest e o h k i =
    read_frame_end c size rest (i ∙ rw (write_frame-ok w [] e (omega arith), o) refl)
read_frame-write_frame w c size (x ∷ xs) rest e o h k i =
    read_frame-ok c size (x ∷ xs) rest (i ∙ rw (write_frame-ok w (x ∷ xs) e (omega arith), o) refl)
      (omega arith) h k
    ∙ ap (λ (r : Bool). (if r then err eof else ok (x ∷ xs), record c { incoming = rest })) nonzero
  where
    nonzero : false ≡ (suc (length xs) == 0)
    nonzero = ground arith
