-- ===== src/Tests/Addresses.antt =====
-- Runs of the address discovery.
use p2pft.Prelude.{List, [], ◌∷◌, ◌++◌, ◌≡◌, refl, Bytes, Text, codes}
use p2pft.Io.Result.{ok}
use p2pft.Nat.Discover.{Addr, ip_net, other, collect, discover_local_addrs}
use p2pft.Nat.Discover.Once.{Candidates, discover_local_addrs-Candidates}

abbrev print : Bytes → Text
print ip = ip

abbrev with_port : Text → Text
with_port h = h ++ codes ":9"

-- The loopback address, an address of two interfaces, once in its 16-byte form, a link-local
-- address and one of IPv6.
abbrev addrs : List Addr
addrs =
    ip_net (127 ∷ 0 ∷ 0 ∷ 1 ∷ [])
    ∷ ip_net (10 ∷ 0 ∷ 0 ∷ 7 ∷ [])
    ∷ other
    ∷ ip_net (0 ∷ 0 ∷ 0 ∷ 0 ∷ 0 ∷ 0 ∷ 0 ∷ 0 ∷ 0 ∷ 0 ∷ 255 ∷ 255 ∷ 10 ∷ 0 ∷ 0 ∷ 7 ∷ [])
    ∷ ip_net (169 ∷ 254 ∷ 1 ∷ 1 ∷ [])
    ∷ ip_net (32 ∷ 1 ∷ 0 ∷ 0 ∷ 0 ∷ 0 ∷ 0 ∷ 0 ∷ 0 ∷ 0 ∷ 0 ∷ 0 ∷ 0 ∷ 0 ∷ 0 ∷ 1 ∷ [])
    ∷ []

discover_local_addrs-Candidates_example :
    (candidates : List Text) × (discover_local_addrs print with_port (ok addrs) ≡ ok candidates)
    × Candidates print with_port addrs candidates
discover_local_addrs-Candidates_example = discover_local_addrs-Candidates print with_port addrs

one_candidate :
    discover_local_addrs print with_port (ok addrs) ≡ ok (with_port (10 ∷ 0 ∷ 0 ∷ 7 ∷ []) ∷ [])
unfolding discover_local_addrs collect
one_candidate = refl
