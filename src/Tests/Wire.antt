-- ===== src/Tests/Wire.antt =====
-- Messages on the wire.
use p2pft.Prelude.{◌+◌, ◌==◌, ◌≡◌, refl, Bool, pos, some, [], ◌∷◌, Text, codes, arith}
use p2pft.Io.Result.{ok}
use p2pft.Signaling.Messages.{
  Envelope, session_found_env, receiver_hello_env, malformed, receiver_hello,
}
use p2pft.Signaling.Wire.{Json, null, str, int, obj, member, end, wire}
use p2pft.Signaling.Wire.Unmarshal.{into, unwire}
use p2pft.Signaling.Wire.RoundTrip.{IsSendable, unwire-wire}
use p2pft.Signaling.Wire.Utf8.{to_utf8, coerce_from, valid_from, rune_tail}

-- Names of which one starts with the capital of the other, which is all that the test needs.
abbrev fold : Text → Text → Bool
fold (a ∷ _) (b ∷ _) = a == (b + 32)
fold _ _ = Bool.false

abbrev found : Envelope
found = session_found_env (record {
  filename = 0xc3 ∷ 0xa9 ∷ [];
  size = pos 5;
  sha256 = codes "ab";
  peer = record {
    local_candidates = codes "a" ∷ codes "b" ∷ [];
    public = [];
    cert_fingerprint = codes "cd";
  };
})

-- The name of the file is two bytes, which are one rune.
found-IsSendable : IsSendable found
unfolding valid_from rune_tail
found-IsSendable = (omega arith, refl, refl, ((refl, (refl, tt)), refl, refl))

unwire-wire_example : (j : Json) × (wire found ≡ some j) × (unwire fold j ≡ ok found)
unwire-wire_example = unwire-wire fold found found-IsSendable

-- A byte that is no UTF-8, the first byte of a surrogate with what follows it, and a rune.
replaced :
    to_utf8 (0xff ∷ 0xed ∷ 0xa0 ∷ 0xe2 ∷ 0x82 ∷ 0xac ∷ [])
    ≡ 0xef ∷ 0xbf ∷ 0xbd ∷ 0xef ∷ 0xbf ∷ 0xbd ∷ 0xef ∷ 0xbf ∷ 0xbd ∷ 0xe2 ∷ 0x82 ∷ 0xac ∷ []
unfolding coerce_from rune_tail
replaced = refl

-- A member that no field has is skipped, and a name in capitals is found.
tolerant :
    unwire fold (
      obj (
        member (codes "type") (str (codes "receiver_hello")) (
          member
            (codes "payload")
            (obj (member (codes "x") null (member (codes "CODE") (str (codes "c")) end)))
            end)))
    ≡ ok (receiver_hello_env (record { code = codes "c" }))
unfolding unwire into
tolerant = refl

-- A number in the place of a text makes the payload malformed.
mistyped :
    unwire fold (
      obj (
        member
          (codes "type")
          (str (codes "receiver_hello"))
          (member (codes "payload") (obj (member (codes "code") (int (pos 4)) end)) end)))
    ≡ ok (malformed receiver_hello)
unfolding unwire into
mistyped = refl
