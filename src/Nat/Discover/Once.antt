-- ===== src/Nat/Discover/Once.antt =====
-- Each IPv4 address of an interface that can be reached from the LAN is listed once.
use p2pft.Prelude.{
  ℕ, suc, zero, ◌≤◌, ◌≡◌, ◌≢◌, refl, sym, ap, ◌∙◌, ◌⊎◌, inl, inr, Bool, true, false, Bool-cases,
  Option, none, some, List, [], ◌∷◌, ◌++◌, ◌==◌, ◌&&◌, map, length, take, drop, Bytes, Text,
  eqb_text, eqb_text→eq, eqb_text_refl, arith, ==_iff, length-drop, take-append-drop,
}
use p2pft.Io.Result.{ok}
use p2pft.Nat.Discover.{
  Addr, ip_net, other, v4_in_v6_prefix, to4, lan_ip, usable, collect, discover_local_addrs,
}
use p2pft.Nat.Discover.Rounds.{count, host, all_hosts, kept, collect-kept, kept-count}

-- The four bytes of an IPv4 address, as an interface has them: in four bytes, or in sixteen behind
-- the prefix ::ffff:0:0.
pub data IsIpv4 (a b c d : ℕ) : Bytes → Type 0 where
  short : IsIpv4 a b c d (a ∷ b ∷ c ∷ d ∷ [])
  mapped : IsIpv4 a b c d (0 ∷ 0 ∷ 0 ∷ 0 ∷ 0 ∷ 0 ∷ 0 ∷ 0 ∷ 0 ∷ 0 ∷ 255 ∷ 255 ∷ a ∷ b ∷ c ∷ d ∷ [])

-- Some address of an interface is the IPv4 address a.b.c.d.
abbrev pub Has : ℕ → ℕ → ℕ → ℕ → List Addr → Type 0
Has a b c d [] = ⊥
Has a b c d (ip_net raw ∷ addrs) = IsIpv4 a b c d raw ⊎ Has a b c d addrs
Has a b c d (other ∷ addrs) = Has a b c d addrs

-- Neither loopback, 127.0.0.0/8, nor link-local, 169.254.0.0/16.
abbrev pub IsLan : ℕ → ℕ → Type 0
IsLan a b = (a ≢ 127) × ((a ≢ 169) ⊎ (b ≢ 254))

lan_ip-IsLan :
    (a b c d : ℕ) → IsLan a b → lan_ip (some (a ∷ b ∷ c ∷ d ∷ [])) ≡ some (a ∷ b ∷ c ∷ d ∷ [])
lan_ip-IsLan a b c d (loop, inl x) = ground (arith, loop, x)
lan_ip-IsLan a b c d (loop, inr x) = ground (arith, loop, x)

usable-IsLan :
    (a b c d : ℕ) (raw : Bytes)
    → IsIpv4 a b c d raw
    → IsLan a b
    → usable (ip_net raw) ≡ some (a ∷ b ∷ c ∷ d ∷ [])
usable-IsLan a b c d _ short lan = lan_ip-IsLan a b c d lan
usable-IsLan a b c d _ mapped lan = lan_ip-IsLan a b c d lan

==-ne : (a n : ℕ) → (a == n) ≡ false → a ≢ n
==-ne a n h = ground arith

lan_ip_sound :
    (a b c d : ℕ) (ip : Bytes)
    → lan_ip (some (a ∷ b ∷ c ∷ d ∷ [])) ≡ some ip
    → (ip ≡ a ∷ b ∷ c ∷ d ∷ []) × IsLan a b
lan_ip_sound a b c d ip h = elim (Bool-cases (a == 127)) [
  | inl loop ↦ cc (rw loop at h)
  | inr far ↦ elim (Bool-cases (a == 169)) [
    | inr outside ↦ (cc (rw (far, outside) at h), (==-ne a 127 far, inl (==-ne a 169 outside)))
    | inl link ↦ elim (Bool-cases (b == 254)) [
      | inl local ↦ cc (rw (far, link, local) at h)
      | inr routed ↦ (cc (rw (far, link, routed) at h), (==-ne a 127 far, inr (==-ne b 254 routed)))
    ]
  ]
]

-- A text of four bytes.
four_bytes :
    (back : Bytes)
    → length back ≡ 4
    → (a : ℕ) × (b : ℕ) × (c : ℕ) × (d : ℕ) × (back ≡ a ∷ b ∷ c ∷ d ∷ [])
four_bytes [] h = absurd (omega arith)
four_bytes (a ∷ []) h = absurd (omega arith)
four_bytes (a ∷ b ∷ []) h = absurd (omega arith)
four_bytes (a ∷ b ∷ c ∷ []) h = absurd (omega arith)
four_bytes (a ∷ b ∷ c ∷ d ∷ []) h = (a, b, c, d, refl)
four_bytes (a ∷ b ∷ c ∷ d ∷ e ∷ r) h = absurd (omega arith)

IsIpv4-congr :
    (a b c d : ℕ) (raw raw' : Bytes) → raw ≡ raw' → IsIpv4 a b c d raw' → IsIpv4 a b c d raw
IsIpv4-congr a b c d raw raw' e v = rw e v

to4_sound :
    (raw r : Bytes)
    → to4 raw ≡ some r
    → (a : ℕ) × (b : ℕ) × (c : ℕ) × (d : ℕ) × (r ≡ a ∷ b ∷ c ∷ d ∷ []) × IsIpv4 a b c d raw
to4_sound raw r h = elim (Bool-cases (length raw == 4)) [
  | inl four ↦
      let same : raw ≡ r = cc (rw four at h) in
      let (a, b, c, d, e) = four_bytes raw ((==_iff (length raw) 4).0 four) in
      (a, b, c, d, sym same ∙ e, IsIpv4-congr a b c d raw _ e short)
  | inr longer ↦ elim (Bool-cases (length raw == 16 && eqb_text (take 12 raw) v4_in_v6_prefix)) [
    | inr neither ↦ cc (rw (longer, neither) at h)
    | inl inside ↦
        let same : drop 12 raw ≡ r = cc (rw (longer, inside) at h) in
        let (n, front) = both (length raw == 16) (eqb_text (take 12 raw) v4_in_v6_prefix) inside in
        let (a, b, c, d, e) =
          four_bytes (drop 12 raw)
            (omega (arith, length-drop 12 raw, (==_iff (length raw) 16).0 n)) in
        (
          a,
          b,
          c,
          d,
          sym same ∙ e,
          IsIpv4-congr a b c d raw (v4_in_v6_prefix ++ a ∷ b ∷ c ∷ d ∷ [])
              (sym (take-append-drop 12 raw)
                ∙ ap (λ (x : Bytes). x ++ drop 12 raw)
                    (eqb_text→eq (take 12 raw) v4_in_v6_prefix front)
                ∙ ap (λ (x : Bytes). v4_in_v6_prefix ++ x) e)
              mapped,
        )
  ]
]
  where
    both : (x y : Bool) → (x && y) ≡ true → (x ≡ true) × (y ≡ true)
    both true y h = (refl, h)
    both false y h = cc h

usable_sound :
    (raw ip : Bytes)
    → usable (ip_net raw) ≡ some ip
    → (a : ℕ) × (b : ℕ) × (c : ℕ) × (d : ℕ) × (ip ≡ a ∷ b ∷ c ∷ d ∷ [])
      × IsIpv4 a b c d raw
      × IsLan a b
usable_sound raw ip h = of_to4 (to4 raw) refl h
  where
    of_to4 :
        (o : Option Bytes)
        → to4 raw ≡ o
        → lan_ip o ≡ some ip
        → (a : ℕ) × (b : ℕ) × (c : ℕ) × (d : ℕ) × (ip ≡ a ∷ b ∷ c ∷ d ∷ [])
          × IsIpv4 a b c d raw
          × IsLan a b
    of_to4 none e k = cc k
    of_to4 (some r) e k =
        let (a, b, c, d, same, v4) = to4_sound raw r e in
        let (printed, lan) =
          lan_ip_sound a b c d ip (sym (ap (λ (x : Bytes). lan_ip (some x)) same) ∙ k) in
        (a, b, c, d, printed, v4, lan)

module _ (print : Bytes → Text) (join : Text → Text) where
  -- The text of an IPv4 address of an interface that can be reached from the LAN.
  abbrev pub Reachable : List Addr → Text → Type 0
  Reachable addrs h =
      (a : ℕ) × (b : ℕ) × (c : ℕ) × (d : ℕ) × Has a b c d addrs
      × IsLan a b
      × (h ≡ print (a ∷ b ∷ c ∷ d ∷ []))

  host-grows :
      (h : Text) (o : Option Bytes) (hosts : List Text)
      → count h hosts ≤ count h (host print join o hosts)
  host-grows h none hosts = omega arith
  host-grows h (some ip) hosts = ground arith

  all_hosts-Reachable :
      (addrs : List Addr) (h : Text) → Reachable addrs h → 1 ≤ count h (all_hosts print join addrs)
  all_hosts-Reachable [] h (a, b, c, d, has, lan, e) = absurd has
  all_hosts-Reachable (other ∷ addrs) h r = all_hosts-Reachable addrs h r
  all_hosts-Reachable (ip_net raw ∷ addrs) h (a, b, c, d, inl v4, lan, e) =
      rw (usable-IsLan a b c d raw v4 lan, e, eqb_text_refl (print (a ∷ b ∷ c ∷ d ∷ [])))
        (omega arith)
  all_hosts-Reachable (ip_net raw ∷ addrs) h (a, b, c, d, inr has, lan, e) = omega (
    arith,
    all_hosts-Reachable addrs h (a, b, c, d, has, lan, e),
    host-grows h (usable (ip_net raw)) (all_hosts print join addrs),
  )

  all_hosts_sound :
      (addrs : List Addr) (h : Text) → 1 ≤ count h (all_hosts print join addrs) → Reachable addrs h
  all_hosts_sound [] h r = absurd (omega arith)
  all_hosts_sound (other ∷ addrs) h r = all_hosts_sound addrs h r
  all_hosts_sound (ip_net raw ∷ addrs) h r =
      one (usable (ip_net raw)) refl r (all_hosts_sound addrs h)
    where
      later : Reachable addrs h → Reachable (ip_net raw ∷ addrs) h
      later (a, b, c, d, has, lan, e) = (a, b, c, d, inr has, lan, e)

      one :
          (o : Option Bytes)
          → usable (ip_net raw) ≡ o
          → 1 ≤ count h (host print join o (all_hosts print join addrs))
          → (1 ≤ count h (all_hosts print join addrs) → Reachable addrs h)
          → Reachable (ip_net raw ∷ addrs) h
      one none e k ih = later (ih k)
      one (some ip) e k ih = elim (Bool-cases (eqb_text (print ip) h)) [
        | inr differs ↦ later (ih (rw differs at k))
        | inl same ↦
            let (a, b, c, d, four, v4, lan) = usable_sound raw ip e in
            (a, b, c, d, inl v4, lan, sym (eqb_text→eq (print ip) h same) ∙ ap print four)
      ]

  -- The hosts behind the candidates: each that can be reached stands there once, and no other.
  pub record Candidates (addrs : List Addr) (candidates : List Text) : Type 0 where
    pub hosts : List Text
    pub joined : candidates ≡ map join hosts
    pub once : (h : Text) → Reachable addrs h → count h hosts ≡ 1
    pub only : (h : Text) → (count h hosts ≡ 0) ⊎ Reachable addrs h

  -- Where the interfaces can be listed, `DiscoverLocalAddrs` succeeds, and its candidates are the
  -- texts of certain hosts with the port. The text of each IPv4 address of an interface, in four
  -- bytes or in sixteen, that is neither loopback nor link-local is one of these hosts, once
  -- however many interfaces have it, and no other text is.
  pub discover_local_addrs-Candidates :
      (addrs : List Addr)
      → (candidates : List Text) × (discover_local_addrs print join (ok addrs) ≡ ok candidates)
        × Candidates addrs candidates
  unfolding discover_local_addrs
  discover_local_addrs-Candidates addrs =
      let hosts = kept print join addrs (λ s. false) in
      let counted = λ (h : Text). kept-count print join h addrs (λ s. false) in
      (
        collect print join addrs (λ s. false) [],
        refl,
        record {
          hosts = hosts;
          joined = collect-kept print join addrs (λ s. false) [];
          once = λ h r. omega (arith, counted h, all_hosts-Reachable addrs h r);
          only = λ h. elim (count_cases (count h (all_hosts print join addrs))) [
            | inl never ↦ inl (omega (arith, counted h, never))
            | inr some_times ↦ inr (all_hosts_sound addrs h some_times)
          ];
        },
      )
    where
      count_cases : (n : ℕ) → (n ≡ 0) ⊎ (1 ≤ n)
      count_cases zero = inl refl
      count_cases (suc n) = inr (omega arith)
