-- ===== src/Tlsx/Pinning.antt =====
-- The callback accepts the pinned certificate and nothing with another digest.
use p2pft.Prelude.{
  ◌≡◌, ◌↔◌, ◌≢◌, refl, sym, ap, ◌∙◌, some, [], ◌∷◌, Bytes, Text, eqb_text, eqb_text→eq,
  eqb_text_iff, arith, length, Bool-cases, inl, inr,
}
use p2pft.Io.Disk.Quiet.{eqb_text-ne}
use p2pft.Io.Result.{ok}
use p2pft.Transfer.Hex.{hex_encode, hex_decode, decode-encode}
use p2pft.Transfer.Protocol.{Digest}
use p2pft.Tlsx.{Chain, fingerprint, fingerprint_cert, verify_peer_fingerprint, check_leaf}

module _ (digest : Digest) where
  some-injective' : {a b : Bytes} → some a ≡ some b → a ≡ b
  some-injective' h = cc h

  -- Two certificates with one fingerprint have one digest.
  fingerprint-injective :
      (a b : Bytes) → fingerprint digest a ≡ fingerprint digest b → digest.sum a ≡ digest.sum b
  unfolding fingerprint
  fingerprint-injective a b h = some-injective' (
      sym (decode-encode (digest.sum a) (digest.sum_bytes a))
      ∙ ap hex_decode h
      ∙ decode-encode (digest.sum b) (digest.sum_bytes b))

  pub fingerprint-ne-nil : (a : Bytes) → fingerprint digest a ≢ []
  unfolding fingerprint hex_encode
  fingerprint-ne-nil a h = not_empty (digest.sum a) (digest.sum_length a) h
    where
      not_empty : (d : Bytes) → length d ≡ 32 → hex_encode d ≢ []
      not_empty [] e k = absurd (omega arith)
      not_empty (b ∷ d) e k = cc k

  check_leaf_iff :
      (expected : Text) (theirs : Chain)
      → (check_leaf digest expected theirs ≡ ok tt) ↔ (
          (leaf : Bytes) × (rest : Chain) × (theirs ≡ leaf ∷ rest)
          × (fingerprint digest leaf ≡ expected))
  check_leaf_iff expected [] = (λ h. cc h, λ (leaf, rest, e, _). cc e)
  check_leaf_iff expected (der ∷ rest) = (
    λ h. elim (Bool-cases (eqb_text (fingerprint digest der) expected)) [
      | inl same ↦ (der, rest, refl, eqb_text→eq _ _ same)
      | inr other ↦ cc (rw other at h)
    ],
    λ (leaf, rest', e, k).
        rw ((eqb_text_iff (fingerprint digest der) expected).1 (ap (fingerprint digest) (cc e) ∙ k))
          refl,
  )

  fingerprint-congr :
      (a b : Bytes) → digest.sum a ≡ digest.sum b → fingerprint digest a ≡ fingerprint digest b
  unfolding fingerprint
  fingerprint-congr a b h = ap hex_encode h

  verify-check_leaf :
      (mine : Bytes) (theirs : Chain)
      → verify_peer_fingerprint digest (fingerprint_cert digest (mine ∷ [])) theirs
        ≡ check_leaf digest (fingerprint digest mine) theirs
  unfolding verify_peer_fingerprint fingerprint_cert
  verify-check_leaf mine theirs =
      rw (eqb_text-ne (fingerprint digest mine) [] (fingerprint-ne-nil mine)) refl

  -- A peer is accepted exactly if it presents a leaf certificate whose digest is that of the
  -- certificate that was pinned.
  pub verify-pins :
      (mine : Bytes) (theirs : Chain)
      → (verify_peer_fingerprint digest (fingerprint_cert digest (mine ∷ [])) theirs ≡ ok tt) ↔ (
          (leaf : Bytes) × (rest : Chain) × (theirs ≡ leaf ∷ rest)
          × (digest.sum leaf ≡ digest.sum mine))
  verify-pins mine theirs = (
    λ h.
        let (leaf, rest, e, k) =
          (check_leaf_iff (fingerprint digest mine) theirs).0
            (sym (verify-check_leaf mine theirs) ∙ h) in
        (leaf, rest, e, fingerprint-injective leaf mine k),
    λ (leaf, rest, e, k).
        verify-check_leaf mine theirs
        ∙ (check_leaf_iff (fingerprint digest mine) theirs).1
            (leaf, rest, e, fingerprint-congr leaf mine k),
  )
