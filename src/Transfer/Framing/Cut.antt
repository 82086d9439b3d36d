-- ===== src/Transfer/Framing/Cut.antt =====
-- Reading a frame off a stream that breaks off early.
use p2pft.Prelude.{
  String, ℕ, ◌≤◌, ◌<◌, ◌≡◌, refl, ap, ◌∙◌, ◌⊎◌, inl, inr, [], ◌∷◌, ◌++◌, length, length-append,
  append_assoc, Bytes, arith,
}
use p2pft.Io.Result.{Error, err, wrap}
use p2pft.Io.Conn.{Conn, read_full, read_error}
use p2pft.Transfer.Framing.{max_frame_size, put_uint32, read_frame}
use p2pft.Transfer.Framing.RoundTrip.{frame, read_full-append, uint32-put_uint32}

-- What has arrived of `xs ++ ys` breaks off within `xs`, or it has `xs` and some of `ys`.
pub prefix_cases :
    (xs ys p lost : Bytes)
    → p ++ lost ≡ xs ++ ys
    → (length p < length xs) ⊎ ((more : Bytes) × (p ≡ xs ++ more) × (more ++ lost ≡ ys))
prefix_cases [] ys p lost e = inr (p, refl, e)
prefix_cases (x ∷ xs) ys [] lost e = inl (omega arith)
prefix_cases (x ∷ xs) ys (y ∷ p) lost e = elim (prefix_cases xs ys p lost (cc e)) [
  | inl short ↦ inl (omega (arith, short))
  | inr (more, a, b) ↦ inr (more, cc (e, a), b)
]

pub read_full-short :
    (n : ℕ) (c : Conn)
    → length c.incoming < n
    → (e : Error) × (read_full n c ≡ (err e, record c { incoming = [] }))
unfolding read_full
read_full-short n c h = (read_error c.ending c.incoming, ground (arith, h))

-- A stream that breaks off within a frame gives an error, and nothing is left of it.
pub read_frame-short :
    (size : ℕ) (b ys lost : Bytes) (c : Conn)
    → length b ≤ max_frame_size
    → length b ≤ size
    → c.incoming ++ lost ≡ frame b ++ ys
    → length c.incoming < length (frame b)
    → (msg : String) × (x : Error) × (read_frame size c
        ≡ (err (wrap msg x), record c { incoming = [] }))
unfolding read_frame
read_frame-short size b ys lost c hi fits e short =
    elim (prefix_cases (put_uint32 (length b)) (b ++ ys) c.incoming lost
      (e ∙ append_assoc (put_uint32 (length b)) b ys)) [
        | inl header ↦
            let (x, k) = read_full-short 4 c (omega (arith, header)) in
            ("read frame header", x, rw k refl)
        | inr (more, at, later) ↦
            let body : length more < length b = omega (
              arith,
              ap length at,
              short,
              length-append (put_uint32 (length b)) more,
              length-append (put_uint32 (length b)) b,
            ) in
            let (x, k) = read_full-short (length b) (record c { incoming = more }) body in
            (
              "read frame body",
              x,
              rw
                  (
                    read_full-append c (put_uint32 (length b)) more at,
                    uint32-put_uint32 (length b) (omega (arith, hi)),
                  )
                  (ground (arith, k, hi, fits, body)),
            )
      ]
