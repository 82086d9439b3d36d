-- ===== src/Tlsx/Generate.antt =====
-- internal/tlsx/tlsx.go: GenerateCert.
pub mod Valid
use p2pft.Prelude.{ℕ, ◌-◌, ◌+◌, ◌*◌, ◌^◌, Bool, true, List, [], ◌∷◌, Bytes, Text, codes}
use p2pft.Io.Result.{Error, Result, ok, err, wrap}
use p2pft.Tlsx.{Chain}

-- Times and durations are in seconds.
abbrev pub cert_validity : ℕ
cert_validity = 60 * 60

pub data Usage : Type 0 where
  digital_signature server_auth client_auth : Usage

-- The fields of an `x509.Certificate` that the template sets.
pub record Certificate : Type 0 where
  pub serial_number : ℕ
  pub common_name : Text
  pub not_before : ℕ
  pub not_after : ℕ
  pub key_usage : Usage
  pub ext_key_usage : List Usage
  pub basic_constraints_valid : Bool

pub record TlsCertificate : Type 0 where
  pub certificate : Chain
  pub private_key : Bytes
  pub leaf : Certificate

-- crypto/ed25519, crypto/rand and crypto/x509: a fresh pair of keys, public key first, a random
-- number below the bound, the DER bytes of a template that is signed by a parent, and what they
-- parse to.
pub record Crypto : Type 0 where
  pub generate_key : Result (Bytes × Bytes)
  pub random_int : ℕ → Result ℕ
  pub create_certificate : Certificate → Certificate → Bytes → Bytes → Result Bytes
  pub parse_certificate : Bytes → Result Certificate

abbrev pub template : ℕ → ℕ → Certificate
template now serial = record {
  serial_number = serial;
  common_name = codes "p2pft-ephemeral";
  not_before = now - 60;
  not_after = now + cert_validity;
  key_usage = digital_signature;
  ext_key_usage = server_auth ∷ client_auth ∷ [];
  basic_constraints_valid = true;
}

abbrev pub parsed_cert : Bytes → Bytes → Result Certificate → Result TlsCertificate
parsed_cert der priv (err e) = err (wrap "parse certificate" e)
parsed_cert der priv (ok leaf) =
    ok (record { certificate = der ∷ []; private_key = priv; leaf = leaf })

module _ (crypto : Crypto) (now : ℕ) where
  abbrev pub signed_cert : Bytes → Result Bytes → Result TlsCertificate
  signed_cert priv (err e) = err (wrap "create certificate" e)
  signed_cert priv (ok der) = parsed_cert der priv (crypto.parse_certificate der)

  abbrev pub with_serial : Bytes × Bytes → Result ℕ → Result TlsCertificate
  with_serial key (err e) = err (wrap "generate serial" e)
  with_serial (public, priv) (ok serial) =
      let tmpl = template now serial in
      signed_cert priv (crypto.create_certificate tmpl tmpl public priv)

  abbrev pub with_key : Result (Bytes × Bytes) → Result TlsCertificate
  with_key (err e) = err (wrap "generate key" e)
  with_key (ok key) = with_serial key (crypto.random_int (2 ^ 128))

  -- `GenerateCert` at the time `now`.
  unfoldable pub generate_cert : Result TlsCertificate
  generate_cert = with_key crypto.generate_key
