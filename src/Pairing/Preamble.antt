-- ===== src/Pairing/Preamble.antt =====
-- A preamble is read back as it was written.
use p2pft.Prelude.{
  ℕ, ◌≤◌, ◌%◌, ◌^◌, ◌≡◌, refl, ◌∙◌, none, [], ◌++◌, ltb, false, length, append_assoc, Bytes, Text,
  arith,
}
use p2pft.Io.Result.{ok}
use p2pft.Io.Conn.{Conn}
use p2pft.Transfer.Framing.RoundTrip.{read_full-append, write-ok}
use p2pft.Pairing.{max_preamble_len, put_uint16, uint16, write_preamble, read_preamble}

-- The bytes of a preamble.
abbrev pub preamble : Text → Bytes
preamble p = put_uint16 (length p) ++ p

uint16-put_uint16 : (n : ℕ) → n ≤ max_preamble_len → uint16 (put_uint16 n) ≡ n
uint16-put_uint16 n h = omega arith

pub write_preamble-ok :
    (c : Conn) (p : Text)
    → c.room ≡ none
    → length p ≤ max_preamble_len
    → write_preamble (ok tt) p c ≡ (ok tt, record c { outgoing = c.outgoing ++ preamble p })
unfolding write_preamble
write_preamble-ok c p e h = rw (
  fits,
  small,
  write-ok c (put_uint16 (length p)) e,
  write-ok (record c { outgoing = c.outgoing ++ put_uint16 (length p) }) p e,
  append_assoc c.outgoing (put_uint16 (length p)) p,
)
  where
    fits : ltb max_preamble_len (length p) ≡ false
    fits = ground arith

    small : length p % 2 ^ 16 ≡ length p
    small = omega arith

pub read_preamble-ok :
    (c : Conn) (p rest : Bytes)
    → length p ≤ max_preamble_len
    → c.incoming ≡ preamble p ++ rest
    → read_preamble (ok tt) c ≡ (ok p, record c { incoming = rest })
unfolding read_preamble
read_preamble-ok c p rest h i =
    rw
      (
        read_full-append c (put_uint16 (length p)) (p ++ rest)
            (i ∙ append_assoc (put_uint16 (length p)) p rest),
        uint16-put_uint16 (length p) h,
      )
      (ground (arith, read_full-append (record c { incoming = p ++ rest }) p rest refl))

-- A preamble of at most 256 bytes that one side writes on a sound connection is what the other
-- side reads first, and whatever follows is left on the stream.
pub read_preamble-write_preamble :
    (w c : Conn) (p rest : Bytes)
    → w.room ≡ none
    → w.outgoing ≡ []
    → length p ≤ max_preamble_len
    → c.incoming ≡ (write_preamble (ok tt) p w).1.outgoing ++ rest
    → read_preamble (ok tt) c ≡ (ok p, record c { incoming = rest })
read_preamble-write_preamble w c p rest e o h i =
    read_preamble-ok c p rest h (i ∙ rw (write_preamble-ok w p e h, o) refl)
