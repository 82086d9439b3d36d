-- ===== src/Tests/Certificate.antt =====
-- A run of GenerateCert.
use p2pft.Prelude.{ℕ, ◌-◌, ◌+◌, ◌≡◌, refl, ap, ◌∙◌, [], ◌∷◌, Bytes, arith}
use p2pft.Io.Result.{Result, ok, err, failed}
use p2pft.Tlsx.Generate.{
  Certificate, TlsCertificate, Crypto, cert_validity, template, generate_cert,
}
use p2pft.Tlsx.Generate.Valid.{Parses, Generated, generate_cert-Generated}
use p2pft.Tests.Stubs.{stub_digest}

abbrev parse : Bytes → Result Certificate
parse (serial ∷ not_after ∷ _) = ok (template (not_after - cert_validity) serial)
parse _ = err failed

abbrev stub_crypto : Crypto
stub_crypto = record {
  generate_key = ok (1 ∷ [], 2 ∷ []);
  random_int = λ n. ok 77;
  create_certificate = λ tmpl parent public priv. ok (tmpl.serial_number ∷ tmpl.not_after ∷ public);
  parse_certificate = parse;
}

stub_parses :
    (now serial : ℕ) (public priv der : Bytes) (c : Certificate)
    → stub_crypto.create_certificate (template now serial) (template now serial) public priv
      ≡ ok der
    → stub_crypto.parse_certificate der ≡ ok c
    → c ≡ template now serial
stub_parses now serial public priv der c e h =
    back ∙ ap (λ (n : ℕ). template n serial) (omega arith)
  where
    back : c ≡ template (now + cert_validity - cert_validity) serial
    back =
        let bytes : serial ∷ (now + cert_validity) ∷ public ≡ der = cc e in cc (ap parse bytes, h)

stub_crypto-Parses : Parses stub_crypto
stub_crypto-Parses = record { parses = stub_parses }

abbrev made : TlsCertificate
made = record {
  certificate = (77 ∷ 4600 ∷ 1 ∷ []) ∷ [];
  private_key = 2 ∷ [];
  leaf = template 1000 77;
}

runs_well : generate_cert stub_crypto 1000 ≡ ok made
unfolding generate_cert
runs_well = refl

generate_cert-Generated_example : Generated stub_digest stub_crypto 1000 made
generate_cert-Generated_example =
    generate_cert-Generated stub_digest stub_crypto 1000 stub_crypto-Parses made runs_well
