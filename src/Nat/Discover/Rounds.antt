-- ===== src/Nat/Discover/Rounds.antt =====
-- The loop lists the host of each address that passes its tests once.
use p2pft.Prelude.{
  ℕ, suc, min, ◌≡◌, refl, sym, ap, ◌∙◌, Bool, Bool-cases, inl, inr, Option, none, some, List, [],
  ◌∷◌, ◌++◌, map, append-nil, append_assoc, if◌then◌else◌, Bytes, Text, eqb_text, eqb_text→eq,
  arith,
}
use p2pft.Nat.Discover.{Addr, usable, mark, collect_ip, collect}

-- How often `h` stands in a list.
abbrev pub count : Text → List Text → ℕ
count h [] = 0
count h (x ∷ xs) = let rest = count h xs in if eqb_text x h then suc rest else rest

module _ (print : Bytes → Text) (join : Text → Text) where
  abbrev pub host : Option Bytes → List Text → List Text
  host none hosts = hosts
  host (some ip) hosts = print ip ∷ hosts

  -- The hosts of the usable addresses, with repetitions.
  abbrev pub all_hosts : List Addr → List Text
  all_hosts [] = []
  all_hosts (a ∷ addrs) = host (usable a) (all_hosts addrs)

  -- The hosts that one round adds, before those of the later rounds.
  abbrev fresh : Option Bytes → (Text → Bool) → ((Text → Bool) → List Text) → List Text
  fresh none seen later = later seen
  fresh (some ip) seen later =
      if seen (print ip) then later seen else print ip ∷ later (mark seen (print ip))

  abbrev pub kept : List Addr → (Text → Bool) → List Text
  kept [] seen = []
  kept (a ∷ addrs) seen = fresh (usable a) seen (kept addrs)

  pub collect-kept :
      (addrs : List Addr) (seen : Text → Bool) (result : List Text)
      → collect print join addrs seen result ≡ result ++ map join (kept addrs seen)
  unfolding collect
  collect-kept [] seen result = sym (append-nil result)
  collect-kept (a ∷ addrs) seen result = one (usable a) (collect-kept addrs)
    where
      one :
          (o : Option Bytes)
          → ((seen : Text → Bool) (result : List Text)
              → collect print join addrs seen result ≡ result ++ map join (kept addrs seen))
          → collect_ip print join (collect print join addrs) o seen result
            ≡ result ++ map join (fresh o seen (kept addrs))
      one none ih = ih seen result
      one (some ip) ih = elim (Bool-cases (seen (print ip))) [
        | inl old ↦ rw old (ih seen result)
        | inr new ↦ rw new (
            ih (mark seen (print ip)) (result ++ join (print ip) ∷ [])
            ∙ append_assoc result (join (print ip) ∷ [])
                (map join (kept addrs (mark seen (print ip)))))
      ]

  pub kept-count :
      (h : Text) (addrs : List Addr) (seen : Text → Bool)
      → count h (kept addrs seen) ≡ (if seen h then 0 else min 1 (count h (all_hosts addrs)))
  kept-count h [] seen = elim (Bool-cases (seen h)) [ inl e ↦ rw e refl | inr e ↦ rw e refl ]
  kept-count h (a ∷ addrs) seen = one (usable a) (kept-count h addrs)
    where
      one :
          (o : Option Bytes)
          → ((seen : Text → Bool)
              → count h (kept addrs seen)
                ≡ (if seen h then 0 else min 1 (count h (all_hosts addrs))))
          → count h (fresh o seen (kept addrs))
            ≡ (if seen h then 0 else min 1 (count h (host o (all_hosts addrs))))
      one none ih = ih seen
      one (some ip) ih = elim (Bool-cases (seen (print ip))) [
        | inl old ↦ elim (Bool-cases (eqb_text (print ip) h)) [
          | inl same ↦ rw (old, ih seen, sym (ap seen (eqb_text→eq (print ip) h same)) ∙ old) refl
          | inr differs ↦ rw (old, differs, ih seen) refl
        ]
        | inr new ↦ elim (Bool-cases (eqb_text (print ip) h)) [
          | inl same ↦
              rw
                (
                  new,
                  same,
                  ih (mark seen (print ip)),
                  same,
                  sym (ap seen (eqb_text→eq (print ip) h same)) ∙ new,
                )
                (omega arith)
          | inr differs ↦ rw (new, differs, ih (mark seen (print ip)), differs) refl
        ]
      ]
