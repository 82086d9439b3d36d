-- ===== src/Tlsx.antt =====
-- internal/tlsx/tlsx.go: fingerprints of certificates and the check that pins them.
pub mod Pinning
pub mod Generate
use p2pft.Prelude.{Bool, List, [], ◌∷◌, if◌then◌else◌, Bytes, Text, eqb_text}
use p2pft.Io.Result.{Result, ok, err, message}
use p2pft.Transfer.Hex.{hex_encode}
use p2pft.Transfer.Protocol.{Digest}

-- The chain of a `tls.Certificate`, and the chain that a peer presents: DER bytes, the leaf first.
abbrev pub Chain : Type 0
Chain = List Bytes

module _ (digest : Digest) where
  unfoldable pub fingerprint : Bytes → Text
  fingerprint der = hex_encode (digest.sum der)

  unfoldable pub fingerprint_cert : Chain → Text
  unfolding fingerprint
  fingerprint_cert [] = []
  fingerprint_cert (der ∷ rest) = fingerprint der

  -- The check of the leaf that is presented.
  abbrev pub check_leaf : Text → Chain → Result (Unit {0})
  check_leaf expected [] = err (message "tlsx: peer presented no certificate")
  check_leaf expected (der ∷ rest) =
      if eqb_text (fingerprint der) expected
      then ok tt
      else err (message "tlsx: peer certificate fingerprint mismatch")

  -- The callback that VerifyPeerFingerprint returns; the verified chains are not looked at.
  unfoldable pub verify_peer_fingerprint : Text → Chain → Result (Unit {0})
  unfolding fingerprint
  verify_peer_fingerprint expected raw_certs =
      if eqb_text expected []
      then err (message "tlsx: no expected fingerprint configured")
      else check_leaf expected raw_certs

  -- What ServerConfig and ClientConfig set: the own chain, whether a peer certificate is required
  -- of a client, and the callback. Both switch off the standard verification.
  pub record TlsConfig : Type 0 where
    pub certificates : Chain
    pub require_client_cert : Bool
    pub insecure_skip_verify : Bool
    pub verify_peer_certificate : Chain → Result (Unit {0})

  abbrev pub server_config : Chain → Text → TlsConfig
  server_config cert peer_fingerprint = record {
    certificates = cert;
    require_client_cert = Bool.true;
    insecure_skip_verify = Bool.true;
    verify_peer_certificate = verify_peer_fingerprint peer_fingerprint;
  }

  abbrev pub client_config : Chain → Text → TlsConfig
  client_config cert peer_fingerprint = record {
    certificates = cert;
    require_client_cert = Bool.false;
    insecure_skip_verify = Bool.true;
    verify_peer_certificate = verify_peer_fingerprint peer_fingerprint;
  }
