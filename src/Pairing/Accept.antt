-- ===== src/Pairing/Accept.antt =====
-- acceptWithCode returns the first connection that names the code, and closes those before it.
use p2pft.Prelude.{
  ℕ, zero, suc, ◌<◌, ◌≡◌, ◌≢◌, refl, sym, ap, ◌∙◌, ◌⊎◌, inl, inr, List, [], ◌∷◌, ◌++◌, map, length,
  All, append-nil, append_assoc, Text, eqb_text, eqb_text→eq, eqb_text_refl, arith, Bool-cases,
}
use p2pft.Io.Result.{Error, Result, ok, err, message, wrap}
use p2pft.Io.Conn.{Conn}
use p2pft.Pairing.{
  max_accept_tries, Arrival, Listener, read_preamble, match_code, accept_loop, accept_with_code,
}

-- What reading the preamble of an arrival gives, and the connection after that.
abbrev pub verdict : Arrival → Result Text × Conn
verdict a = read_preamble a.deadline a.conn

abbrev pub after : Arrival → Conn
after a = (verdict a).1

-- The arrival does not name the code: it sends another preamble, a bad one, or none.
abbrev pub Loses : Text → Arrival → Type 0
Loses code a = (verdict a).0 ≢ ok code

-- The queue of a listener: some losers, then the connection `w`.
abbrev pub queue : List Arrival → Arrival → List (Result Arrival) → List (Result Arrival)
queue losers w rest = map ok losers ++ ok w ∷ rest

module _ (code : Text) where
  match_code-wins :
      (next : Error → Listener → Result Conn × Listener) (c : Conn) (l : Listener)
      → match_code code next (ok code, c) l ≡ (ok c, l)
  match_code-wins next c l = rw (eqb_text_refl code)

  match_code-Loses :
      (next : Error → Listener → Result Conn × Listener) (r : Result Text) (c : Conn) (l : Listener)
      → r ≢ ok code
      → (e : Error) × (match_code code next (r, c) l
          ≡ next e (record l { closed = l.closed ++ c ∷ [] }))
  match_code-Loses next (err e) c l h = (wrap "read preamble" e, refl)
  match_code-Loses next (ok got) c l h = elim (Bool-cases (eqb_text got code)) [
    | inl same ↦ absurd (h (ap ok (eqb_text→eq got code same)))
    | inr other ↦ (message "preamble code mismatch", rw other)
  ]

  accept_loop-Loses :
      (k : ℕ) (last : Error) (a : Arrival) (rest : List (Result Arrival)) (cl : List Conn)
      → Loses code a
      → (e : Error) × (accept_loop code
            (suc k)
            last
            (record { arrivals = ok a ∷ rest; closed = cl })
          ≡ accept_loop code k e (record { arrivals = rest; closed = cl ++ after a ∷ [] }))
  unfolding accept_loop
  accept_loop-Loses k last a rest cl h =
      match_code-Loses (accept_loop code k) (verdict a).0 (after a)
        (record { arrivals = rest; closed = cl }) h

  accept_loop-wins :
      (k : ℕ) (last : Error) (w : Arrival) (c : Conn) (rest : List (Result Arrival))
      (cl : List Conn)
      → verdict w ≡ (ok code, c)
      → accept_loop code (suc k) last (record { arrivals = ok w ∷ rest; closed = cl })
        ≡ (ok c, record { arrivals = rest; closed = cl })
  unfolding accept_loop
  accept_loop-wins k last w c rest cl e = rw (e, eqb_text_refl code)

  names? : (r : Result Text) → (r ≡ ok code) ⊎ (r ≢ ok code)
  names? (err e) = inr (λ h. cc h)
  names? (ok got) = elim (Bool-cases (eqb_text got code)) [
    | inl same ↦ inl (ap ok (eqb_text→eq got code same))
    | inr other ↦ inr (λ h. ground (arith, h, eqb_text_refl code))
  ]

  accept_loop-finds :
      (k : ℕ) (last : Error) (losers : List Arrival) (w : Arrival) (c : Conn)
      (rest : List (Result Arrival)) (cl : List Conn)
      → length losers < k
      → All (Loses code) losers
      → verdict w ≡ (ok code, c)
      → accept_loop code k last (record { arrivals = queue losers w rest; closed = cl })
        ≡ (ok c, record { arrivals = rest; closed = cl ++ map after losers })
  accept_loop-finds zero last losers w c rest cl h ls e = absurd (omega arith)
  accept_loop-finds (suc k) last [] w c rest cl h ls e =
      rw (append-nil cl) (accept_loop-wins k last w c rest cl e)
  accept_loop-finds (suc k) last (a ∷ more) w c rest cl h (l, ls) e =
      let (e₁, step) = accept_loop-Loses k last a (queue more w rest) cl l in
      step
      ∙ accept_loop-finds k e₁ more w c rest (cl ++ after a ∷ []) (omega arith) ls e
      ∙ ap (λ (x : List Conn). (ok c, record { arrivals = rest; closed = x }))
          (append_assoc cl (after a ∷ []) (map after more))

  -- If fewer than ten connections that do not name the code arrive before one that does, that one
  -- is returned, the others are closed, and what arrives later is left alone.
  pub accept_with_code-finds :
      (losers : List Arrival) (w : Arrival) (c : Conn) (rest : List (Result Arrival))
      (cl : List Conn)
      → length losers < max_accept_tries
      → All (Loses code) losers
      → verdict w ≡ (ok code, c)
      → accept_with_code code (record { arrivals = queue losers w rest; closed = cl })
        ≡ (ok c, record { arrivals = rest; closed = cl ++ map after losers })
  unfolding accept_with_code
  accept_with_code-finds losers w c rest cl h ls e =
      accept_loop-finds max_accept_tries (message "nil") losers w c rest cl h ls e

  -- What the queue of a search that returned `c` looked like.
  pub record Found (k : ℕ) (c : Conn) (l l' : Listener) : Type 0 where
    pub losers : List Arrival
    pub winner : Arrival
    pub few : length losers < k
    pub arrivals : l.arrivals ≡ queue losers winner l'.arrivals
    pub lost : All (Loses code) losers
    pub won : verdict winner ≡ (ok code, c)
    pub closed : l'.closed ≡ l.closed ++ map after losers

  Found-wins :
      (k : ℕ) (last : Error) (a : Arrival) (more : List (Result Arrival)) (cl : List Conn)
      (c : Conn) (l' : Listener)
      → (verdict a).0 ≡ ok code
      → accept_loop code (suc k) last (record { arrivals = ok a ∷ more; closed = cl }) ≡ (ok c, l')
      → Found (suc k) c (record { arrivals = ok a ∷ more; closed = cl }) l'
  Found-wins k last a more cl c l' n h =
      let e : verdict a ≡ (ok code, after a) = ap (λ (r : Result Text). (r, after a)) n in
      let same = sym (accept_loop-wins k last a (after a) more cl e) ∙ h in
      record {
        losers = [];
        winner = a;
        few = omega arith;
        arrivals = cc same;
        lost = tt;
        won = cc same;
        closed = cc (same, append-nil cl);
      }

  Found-Loses :
      (k : ℕ) (a : Arrival) (more : List (Result Arrival)) (cl : List Conn) (c : Conn)
      (l' : Listener)
      → Loses code a
      → Found k c (record { arrivals = more; closed = cl ++ after a ∷ [] }) l'
      → Found (suc k) c (record { arrivals = ok a ∷ more; closed = cl }) l'
  Found-Loses k a more cl c l' n f = record {
    losers = a ∷ f.losers;
    winner = f.winner;
    few = omega (arith, f.few);
    arrivals = ap (λ (q : List (Result Arrival)). ok a ∷ q) f.arrivals;
    lost = (n, f.lost);
    won = f.won;
    closed = f.closed ∙ append_assoc cl (after a ∷ []) (map after f.losers);
  }

  accept_loop-Found :
      (k : ℕ) (last : Error) (more : List (Result Arrival)) (cl : List Conn) (c : Conn)
      (l' : Listener)
      → accept_loop code k last (record { arrivals = more; closed = cl }) ≡ (ok c, l')
      → Found k c (record { arrivals = more; closed = cl }) l'
  accept_loop-Found zero last more cl c l' h = unfold accept_loop in cc h
  accept_loop-Found (suc k) last [] cl c l' h = unfold accept_loop in cc h
  accept_loop-Found (suc k) last (err e ∷ more) cl c l' h = unfold accept_loop in cc h
  accept_loop-Found (suc k) last (ok a ∷ more) cl c l' h = elim (names? (verdict a).0) [
    | inl n ↦ Found-wins k last a more cl c l' n h
    | inr n ↦
        let (e, step) = accept_loop-Loses k last a more cl n in
        Found-Loses k a more cl c l' n
          (accept_loop-Found k e more (cl ++ after a ∷ []) c l' (sym step ∙ h))
  ]

  -- If a connection is returned, then it named the code, it was one of the first ten that arrived,
  -- none before it named the code, and exactly those before it have been closed.
  pub accept_with_code-Found :
      (l : Listener) (c : Conn) (l' : Listener)
      → accept_with_code code l ≡ (ok c, l')
      → Found max_accept_tries c l l'
  unfolding accept_with_code
  accept_with_code-Found l c l' h =
      accept_loop-Found max_accept_tries (message "nil") l.arrivals l.closed c l' h
