-- ===== src/Io/Conn/Reads.antt =====
-- Reading takes bytes off the front of the stream and puts none back.
use p2pft.Prelude.{
  ℕ, ◌≡◌, ◌∙◌, sym, ap, Option, none, some, ◌++◌, leb, length, take, drop, append-nil, append_assoc,
  take-append-drop, Bool-cases, inl, inr, Bytes,
}
use p2pft.Io.Exec.Keeps.{Keeps}
use p2pft.Io.Exec.Yields.{Yields}
use p2pft.Io.Conn.{Conn, read_full, write, write_within}

module _ (all : Bytes) where
  -- The stream was `all`: some of it has been read, and what is left is still to come.
  pub record From (c : Conn) : Type 0 where
    pub before : Bytes
    pub at : all ≡ before ++ c.incoming

  -- The bytes `x` have just been read.
  pub record Just (x : Bytes) (c : Conn) : Type 0 where
    pub before : Bytes
    pub at : all ≡ before ++ (x ++ c.incoming)

  pub read_full-Just : (n : ℕ) → Yields From (read_full n) Just
  unfolding read_full
  read_full-Just n = record {
    at = λ c h. elim (Bool-cases (leb n (length c.incoming))) [
      | inl fits ↦ rw fits (record {
        before = h.before;
        at = h.at ∙ ap (λ (t : Bytes). h.before ++ t) (sym (take-append-drop n c.incoming));
      })
      | inr cut ↦ rw cut tt
    ];
  }

  pub read_full-Keeps : (n : ℕ) → Keeps From (read_full n)
  unfolding read_full
  read_full-Keeps n = record {
    at = λ c h. elim (Bool-cases (leb n (length c.incoming))) [
      | inl fits ↦ rw fits (record {
        before = h.before ++ take n c.incoming;
        at =
            h.at
            ∙ ap (λ (t : Bytes). h.before ++ t) (sym (take-append-drop n c.incoming))
            ∙ sym (append_assoc h.before (take n c.incoming) (drop n c.incoming));
      })
      | inr cut ↦ rw cut (record { before = all; at = sym (append-nil all) })
    ];
  }

  pub write-Keeps : (p : Bytes) → Keeps From (write p)
  unfolding write
  write-Keeps p = record { at = λ c h. within c.room c h }
    where
      within : (o : Option ℕ) (c : Conn) → From c → From (write_within o p c).1
      within none c h = record { before = h.before; at = h.at }
      within (some k) c h = elim (Bool-cases (leb (length p) k)) [
        | inl fits ↦ rw fits (record { before = h.before; at = h.at })
        | inr cut ↦ rw cut (record { before = h.before; at = h.at })
      ]
