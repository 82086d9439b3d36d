-- ===== src/Tlsx/Generate/Valid.antt =====
-- What a generated certificate is good for.
use p2pft.Prelude.{ℕ, ◌+◌, ◌^◌, ◌≤◌, ◌≡◌, ◌↔◌, refl, sym, ap, ◌∙◌, [], ◌∷◌, Bytes, arith}
use p2pft.Io.Result.{Result, ok, err}
use p2pft.Transfer.Protocol.{Digest}
use p2pft.Tlsx.{Chain, fingerprint_cert, verify_peer_fingerprint}
use p2pft.Tlsx.Pinning.{verify-pins}
use p2pft.Tlsx.Generate.{
  Certificate, TlsCertificate, Crypto, server_auth, client_auth, cert_validity, template,
  parsed_cert, signed_cert, with_serial, with_key, generate_cert,
}

-- What crypto/x509 says of its two functions, at the templates of the source: a certificate that
-- was created from a template parses to the fields of that template.
pub record Parses (crypto : Crypto) : Type 0 where
  pub parses :
      (now serial : ℕ) (public priv der : Bytes) (c : Certificate)
      → crypto.create_certificate (template now serial) (template now serial) public priv ≡ ok der
      → crypto.parse_certificate der ≡ ok c
      → c ≡ template now serial

module _ (digest : Digest) (crypto : Crypto) (now : ℕ) where
  -- One certificate, self-signed with the fresh key, for both roles, valid from a minute ago for an
  -- hour from now; and pinning it accepts exactly the chains whose leaf has its digest.
  pub record Generated (c : TlsCertificate) : Type 0 where
    pub public : Bytes
    pub keys : crypto.generate_key ≡ ok (public, c.private_key)
    pub der : Bytes
    pub signed : crypto.create_certificate c.leaf c.leaf public c.private_key ≡ ok der
    pub alone : c.certificate ≡ der ∷ []
    pub roles : c.leaf.ext_key_usage ≡ server_auth ∷ client_auth ∷ []
    pub in_time :
        (t : ℕ)
        → now ≤ t + 60
        → t ≤ now + cert_validity
        → (c.leaf.not_before ≤ t) × (t ≤ c.leaf.not_after)
    pub pins :
        (theirs : Chain)
        → (verify_peer_fingerprint digest (fingerprint_cert digest c.certificate) theirs ≡ ok tt)
          ↔ ((leaf : Bytes) × (rest : Chain) × (theirs ≡ leaf ∷ rest)
              × (digest.sum leaf ≡ digest.sum der))

  module _ (law : Parses crypto) where
    of_parsed :
        (public priv der : Bytes) (serial : ℕ) (r : Result Certificate) (c : TlsCertificate)
        → crypto.generate_key ≡ ok (public, priv)
        → crypto.create_certificate (template now serial) (template now serial) public priv ≡ ok der
        → crypto.parse_certificate der ≡ r
        → parsed_cert der priv r ≡ ok c
        → Generated c
    of_parsed public priv der serial (err e) c keys signed p h = cc h
    of_parsed public priv der serial (ok leaf) c keys signed p h =
        let same = law.parses now serial public priv der leaf signed p in
        let built : record {
          certificate = der ∷ [];
          private_key = priv;
          leaf = template now serial;
        }
            ≡ c =
          ap (λ (l : Certificate). record { certificate = der ∷ []; private_key = priv; leaf = l })
            (sym same)
          ∙ cc h in
        rw (sym built) (record {
          public = public;
          keys = keys;
          der = der;
          signed = signed;
          alone = refl;
          roles = refl;
          in_time = λ t early late. (omega (arith, early), late);
          pins = λ theirs. verify-pins digest der theirs;
        })

    of_signed :
        (public priv : Bytes) (serial : ℕ) (r : Result Bytes) (c : TlsCertificate)
        → crypto.generate_key ≡ ok (public, priv)
        → crypto.create_certificate (template now serial) (template now serial) public priv ≡ r
        → signed_cert crypto now priv r ≡ ok c
        → Generated c
    of_signed public priv serial (err e) c keys signed h = cc h
    of_signed public priv serial (ok der) c keys signed h =
        of_parsed public priv der serial (crypto.parse_certificate der) c keys signed refl h

    of_serial :
        (public priv : Bytes) (r : Result ℕ) (c : TlsCertificate)
        → crypto.generate_key ≡ ok (public, priv)
        → with_serial crypto now (public, priv) r ≡ ok c
        → Generated c
    of_serial public priv (err e) c keys h = cc h
    of_serial public priv (ok serial) c keys h =
        of_signed public priv serial
          (crypto.create_certificate (template now serial) (template now serial) public priv) c keys
          refl h

    of_key :
        (r : Result (Bytes × Bytes)) (c : TlsCertificate)
        → crypto.generate_key ≡ r
        → with_key crypto now r ≡ ok c
        → Generated c
    of_key (err e) c keys h = cc h
    of_key (ok (public, priv)) c keys h =
        of_serial public priv (crypto.random_int (2 ^ 128)) c keys h

    -- A certificate that `GenerateCert` returns at the time `now` is self-signed with the key pair that it
    -- has drawn, stands alone in its chain, is for both a server and a client, and is valid from a
    -- minute before until an hour behind; and a peer that pins its fingerprint accepts exactly the
    -- chains whose leaf has its digest.
    pub generate_cert-Generated :
        (c : TlsCertificate) → generate_cert crypto now ≡ ok c → Generated c
    unfolding generate_cert
    generate_cert-Generated c h = of_key crypto.generate_key c refl h
