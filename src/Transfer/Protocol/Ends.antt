-- ===== src/Transfer/Protocol/Ends.antt =====
-- Frames and JSON frames run out of nothing, and a frame makes the stream shorter.
use p2pft.Prelude.{
  ℕ, ◌<◌, ◌≡◌, ap, Option, none, some, [], ◌∷◌, leb, length, length-append, Bytes, inl, inr,
  Bool-cases, arith,
}
use p2pft.Io.Result.{
  Result, ok, err, eof, unexpected_eof, short_buffer, frame_too_large, not_exist, failed,
  out_of_fuel, message, wrap,
}
use p2pft.Io.Exec.Ends.{IsGenuine, Ended, Ends, ends_rules}
use p2pft.Io.Conn.{Conn, Ending, closed, broken, read_full, read_error, write, write_within}
use p2pft.Transfer.Framing.{frame_body, read_frame, write_frame, uint32}
use p2pft.Transfer.Framing.Sound.{read_full_sound, frame_body_sound, read_frame_parts}
use p2pft.Transfer.Protocol.{Codec, json_of_frame, decoded, read_json_frame, write_json_frame}

pub read_full-Ends : (n : ℕ) → Ends (read_full n)
unfolding read_full
read_full-Ends n = record {
  at = λ c. elim (Bool-cases (leb n (length c.incoming))) [
    | inl fits ↦ rw fits tt
    | inr cut ↦ rw cut (ending c.ending c.incoming)
  ];
}
  where
    ending : (e : Ending) (b : Bytes) → IsGenuine (read_error e b)
    ending broken b = tt
    ending closed [] = tt
    ending closed (x ∷ xs) = tt

pub write-Ends : (p : Bytes) → Ends (write p)
unfolding write
write-Ends p = record { at = λ c. within c.room c }
  where
    within : (o : Option ℕ) (c : Conn) → Ended (write_within o p c).0
    within none c = tt
    within (some k) c = elim (Bool-cases (leb (length p) k)) [
      | inl fits ↦ rw fits tt
      | inr cut ↦ rw cut tt
    ]

frame_body-Ends : (size n : ℕ) → Ends (frame_body size n)
frame_body-Ends size n = search (ends_rules, read_full-Ends) depth 7

pub read_frame-Ends : (size : ℕ) → Ends (read_frame size)
unfolding read_frame
read_frame-Ends size = search (ends_rules, read_full-Ends, frame_body-Ends)

pub write_frame-Ends : (b : Bytes) → Ends (write_frame b)
unfolding write_frame
write_frame-Ends b = search (ends_rules, write-Ends) depth 7

-- A frame takes more than its length prefix off the stream.
pub read_frame_shrinks :
    (size : ℕ) (c : Conn) {c' : Conn} {b : Bytes}
    → read_frame size c ≡ (ok b, c')
    → length c'.incoming < length c.incoming
read_frame_shrinks size c {c'} {b} h =
    let (hdr, c₁, e₁, e₂) = read_frame_parts size c h in
    let (i₁, n₁, k₁) = read_full_sound 4 c e₁ in
    let (lo, hi, fits, e₃) = frame_body_sound size (uint32 hdr) c₁ e₂ in
    let (i₂, n₂, k₂) = read_full_sound (uint32 hdr) c₁ e₃ in
    omega (
      arith,
      ap length i₁,
      ap length i₂,
      length-append hdr c₁.incoming,
      length-append b c'.incoming,
    )

module _ {A : Type 0} {P : A → Type 0} (codec : Codec A P) where
  json_of_frame-Ended : (r : Result Bytes) → Ended r → Ended (json_of_frame codec r)
  json_of_frame-Ended (ok b) h = parsed (codec.unmarshal b)
    where
      parsed : (o : Option A) → Ended (decoded codec o)
      parsed none = tt
      parsed (some v) = tt
  json_of_frame-Ended (err eof) h = tt
  json_of_frame-Ended (err unexpected_eof) h = tt
  json_of_frame-Ended (err short_buffer) h = tt
  json_of_frame-Ended (err frame_too_large) h = tt
  json_of_frame-Ended (err not_exist) h = tt
  json_of_frame-Ended (err failed) h = tt
  json_of_frame-Ended (err out_of_fuel) h = absurd h
  json_of_frame-Ended (err (message m)) h = tt
  json_of_frame-Ended (err (wrap m e)) h = h

  pub read_json_frame-Ends : Ends (read_json_frame codec)
  unfolding read_json_frame
  read_json_frame-Ends = search (ends_rules, read_frame-Ends, json_of_frame-Ended)

  pub write_json_frame-Ends : (v : A) → Ends (write_json_frame codec v)
  unfolding write_json_frame
  write_json_frame-Ends v = search write_frame-Ends
