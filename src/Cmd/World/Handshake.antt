-- ===== src/Cmd/World/Handshake.antt =====
-- A handshake that succeeds has shown a certificate with the expected fingerprint.
use p2pft.Prelude.{◌≡◌, refl, sym, ◌∙◌, [], ◌∷◌, Bytes, Text, eqb_text→eq, arith}
use p2pft.Io.Result.{Result, ok, err}
use p2pft.Transfer.Protocol.{Digest}
use p2pft.Tlsx.{Chain, TlsConfig, fingerprint, verify_peer_fingerprint}
use p2pft.Cmd.World.{verified}

module _ (digest : Digest) where
  callback_leaf :
      (expected : Text) (chain : Chain)
      → verify_peer_fingerprint digest expected chain ≡ ok tt
      → (leaf : Bytes) × (rest : Chain) × (chain ≡ leaf ∷ rest)
        × (fingerprint digest leaf ≡ expected)
  unfolding verify_peer_fingerprint
  callback_leaf expected [] h = absurd (ground (arith, h))
  callback_leaf expected (leaf ∷ rest) h =
      (leaf, rest, refl, eqb_text→eq (fingerprint digest leaf) expected (ground (arith, h)))

  pub verified_leaf :
      (expected : Text) (config : TlsConfig digest) (r : Result Chain)
      → ((c : Chain) → config.verify_peer_certificate c ≡ verify_peer_fingerprint digest expected c)
      → verified config r ≡ ok tt
      → (leaf : Bytes) × (rest : Chain) × (r ≡ ok (leaf ∷ rest))
        × (fingerprint digest leaf ≡ expected)
  verified_leaf expected config (err e) same h = cc h
  verified_leaf expected config (ok chain) same h =
      let (leaf, rest, e, k) = callback_leaf expected chain (sym (same chain) ∙ h) in
      (leaf, rest, cc e, k)
