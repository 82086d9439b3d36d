-- ===== src/Tests/Stubs.antt =====
-- Concrete functions in the place of SHA-256 and of the JSON codecs, which meet their laws.
use p2pft.Prelude.{
  codes, List, ℕ, zero, suc, ◌+◌, ◌*◌, ◌/◌, ◌%◌, ◌^◌, ◌≤◌, ◌<◌, ◌≡◌, refl, ap, ℤ, pos, negsuc,
  Option, none, some, [], ◌∷◌, ◌++◌, length, All, Bytes, Text, IsByte, arith,
}
use p2pft.Nat.Punch.{Attempt}
use p2pft.Io.Result.{ok}
use p2pft.Cmd.World.{Names}
use p2pft.Transfer.Framing.{max_frame_size}
use p2pft.Transfer.Protocol.{
  ResumeRequest, TransferStart, PartialMeta, Digest, IsRequest, IsStart, Formats,
}

abbrev pub total : Bytes → ℕ
total [] = 0
total (b ∷ bs) = b + 3 * total bs

-- The length and a weighted sum, in 32 bytes.
abbrev pub sum : Bytes → Bytes
sum b =
    (length b % 256)
    ∷ (total b % 256)
    ∷ 0
    ∷ 0
    ∷ 0
    ∷ 0
    ∷ 0
    ∷ 0
    ∷ 0
    ∷ 0
    ∷ 0
    ∷ 0
    ∷ 0
    ∷ 0
    ∷ 0
    ∷ 0
    ∷ 0
    ∷ 0
    ∷ 0
    ∷ 0
    ∷ 0
    ∷ 0
    ∷ 0
    ∷ 0
    ∷ 0
    ∷ 0
    ∷ 0
    ∷ 0
    ∷ 0
    ∷ 0
    ∷ 0
    ∷ 0
    ∷ []

pub sum_bytes : (b : Bytes) → All IsByte (sum b)
sum_bytes b = omega arith

abbrev pub stub_digest : Digest
stub_digest = record { sum = sum; sum_length = λ b. refl; sum_bytes = sum_bytes }

-- A sign and two words of 32 bits.
abbrev put_int : ℤ → Bytes
put_int (pos n) = 1 ∷ (n / 2 ^ 32) ∷ (n % 2 ^ 32) ∷ []
put_int (negsuc n) = 2 ∷ (n / 2 ^ 32) ∷ (n % 2 ^ 32) ∷ []

abbrev get_int : Bytes → Option ℤ
get_int (suc zero ∷ a ∷ b ∷ []) = some (pos (a * 2 ^ 32 + b))
get_int (suc (suc zero) ∷ a ∷ b ∷ []) = some (negsuc (a * 2 ^ 32 + b))
get_int _ = none

get_int-put_int : (z : ℤ) → get_int (put_int z) ≡ some z
get_int-put_int (pos n) = ap (λ (k : ℕ). some (pos k)) (omega arith)
get_int-put_int (negsuc n) = ap (λ (k : ℕ). some (negsuc k)) (omega arith)

length-put_int : (z : ℤ) → length (put_int z) ≡ 3
length-put_int (pos n) = refl
length-put_int (negsuc n) = refl

abbrev with_offset : Option ℤ → Option ResumeRequest
with_offset none = none
with_offset (some z) = some (record { offset = z })

abbrev with_start : Option ℤ → Option TransferStart
with_start none = none
with_start (some z) = some (record { start_offset = z })

abbrev with_hash : Option ℤ → Text → Option PartialMeta
with_hash none t = none
with_hash (some z) t = some (record { size = z; sha256 = t })

abbrev get_meta : Bytes → Option PartialMeta
get_meta (s ∷ a ∷ b ∷ t) = with_hash (get_int (s ∷ a ∷ b ∷ [])) t
get_meta _ = none

pub request_trip :
    (r : ResumeRequest) → IsRequest r → with_offset (get_int (put_int r.offset)) ≡ some r
request_trip r h = ap with_offset (get_int-put_int r.offset)

pub start_trip :
    (r : TransferStart) → IsStart r → with_start (get_int (put_int r.start_offset)) ≡ some r
start_trip r h = ap with_start (get_int-put_int r.start_offset)

pub get_meta-put :
    (z : ℤ) (t : Text) → get_meta (put_int z ++ t) ≡ some (record { size = z; sha256 = t })
get_meta-put (pos n) t = ap (λ (o : Option ℤ). with_hash o t) (get_int-put_int (pos n))
get_meta-put (negsuc n) t = ap (λ (o : Option ℤ). with_hash o t) (get_int-put_int (negsuc n))

pub fits : (z : ℤ) → (0 < length (put_int z)) × (length (put_int z) ≤ max_frame_size)
fits z = omega (arith, length-put_int z)

abbrev pub stub_formats : Formats
stub_formats = record {
  digest = stub_digest;
  request = record {
    marshal = λ r. put_int r.offset;
    unmarshal = λ b. with_offset (get_int b);
    round_trip = request_trip;
  };
  start = record {
    marshal = λ r. put_int r.start_offset;
    unmarshal = λ b. with_start (get_int b);
    round_trip = start_trip;
  };
  partial_meta = record {
    marshal = λ m. put_int m.size ++ m.sha256;
    unmarshal = get_meta;
    round_trip = λ m h. get_meta-put m.size m.sha256;
  };
  request_size = λ r h. fits r.offset;
  start_size = λ r h. fits r.start_offset;
}

abbrev pub stub_names : Names
stub_names = record {
  base = λ t. t;
  join = λ d t. d ++ (codes "/" ++ t);
  join_host_port = λ h p. h ++ (codes ":" ++ p);
  trim_space = λ t. t;
  to_lower = λ t. t;
}

-- Each dial makes a connection, which is named by the number of dials that are still to come.
abbrev pub all_up : List Text → List Attempt
all_up [] = []
all_up (a ∷ cs) = record { addr = a; answer = ok (length cs) } ∷ all_up cs

pub length-all_up : (cs : List Text) → length (all_up cs) ≡ length cs
length-all_up [] = refl
length-all_up (a ∷ cs) = ap suc (length-all_up cs)
