-- ===== src/Nat/Discover.antt =====
-- internal/nat/discover.go: DiscoverLocalAddrs.
pub mod Rounds
pub mod Once
use p2pft.Prelude.{
  ◌&&◌, ◌||◌, Bool, true, false, Option, none, some, List, [], ◌∷◌, ◌++◌, ◌==◌, if◌then◌else◌,
  length, take, drop, Bytes, Text, eqb_text,
}
use p2pft.Io.Result.{Result, ok, err, wrap}

-- A `net.Addr`: the IP of a `*net.IPNet`, or something else.
pub data Addr : Type 0 where
  ip_net : Bytes → Addr
  other : Addr

abbrev pub v4_in_v6_prefix : Bytes
v4_in_v6_prefix = 0 ∷ 0 ∷ 0 ∷ 0 ∷ 0 ∷ 0 ∷ 0 ∷ 0 ∷ 0 ∷ 0 ∷ 255 ∷ 255 ∷ []

-- `IP.To4`
abbrev pub to4 : Bytes → Option Bytes
to4 ip =
    if length ip == 4
    then some ip
    else if length ip == 16 && eqb_text (take 12 ip) v4_in_v6_prefix
    then some (drop 12 ip)
    else none

-- `IP.IsLoopback` and `IP.IsLinkLocalUnicast` of four bytes
abbrev pub is_loopback : Bytes → Bool
is_loopback (a ∷ _) = a == 127
is_loopback [] = false

abbrev pub is_link_local_unicast : Bytes → Bool
is_link_local_unicast (a ∷ b ∷ _) = a == 169 && b == 254
is_link_local_unicast _ = false

-- The tests of the loop on an address that `To4` has given.
abbrev pub lan_ip : Option Bytes → Option Bytes
lan_ip none = none
lan_ip (some ip) = if is_loopback ip || is_link_local_unicast ip then none else some ip

abbrev pub usable : Addr → Option Bytes
usable (ip_net ip) = lan_ip (to4 ip)
usable other = none

abbrev pub mark : (Text → Bool) → Text → Text → Bool
mark seen s t = eqb_text s t || seen t

-- `print` is `IP.String`, and `join` is `net.JoinHostPort` with the port.
module _ (print : Bytes → Text) (join : Text → Text) where
  -- The body of the loop, with the rounds to come as `next`.
  abbrev pub collect_ip :
      ((Text → Bool) → List Text → List Text) → Option Bytes → (Text → Bool) → List Text → List Text
  collect_ip next none seen result = next seen result
  collect_ip next (some ip) seen result =
      if seen (print ip)
      then next seen result
      else next (mark seen (print ip)) (result ++ join (print ip) ∷ [])

  unfoldable pub collect : List Addr → (Text → Bool) → List Text → List Text
  collect [] seen result = result
  collect (a ∷ addrs) seen result = collect_ip (collect addrs) (usable a) seen result

  -- The argument is what `net.InterfaceAddrs` answers.
  unfoldable pub discover_local_addrs : Result (List Addr) → Result (List Text)
  unfolding collect
  discover_local_addrs (err e) = err (wrap "interface addrs" e)
  discover_local_addrs (ok addrs) = ok (collect addrs (λ s. false) [])
