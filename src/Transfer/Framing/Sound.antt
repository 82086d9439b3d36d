-- ===== src/Transfer/Framing/Sound.antt =====
-- What `read_frame` does on any input.
use p2pft.Prelude.{
  ℕ, ◌≤◌, ◌<◌, ◌≡◌, sym, ap, ◌∙◌, [], ◌∷◌, ◌++◌, length, length-take, take-append-drop, All,
  All-front, Bytes, IsByte, arith,
}
use p2pft.Io.Result.{ok}
use mathlib.Core.Path.{subst}
use p2pft.Io.Exec.{annotate, bind-eq-ok, annotate-eq-ok}
use p2pft.Io.Conn.{Conn, read_full}
use p2pft.Transfer.Framing.{max_frame_size, put_uint32, uint32, frame_body, read_frame}
use p2pft.Transfer.Framing.RoundTrip.{frame, put_uint32-uint32}

-- A read that succeeds takes exactly `n` bytes off the input and changes nothing else.
pub read_full_sound :
    (n : ℕ) (c : Conn) {c' : Conn} {x : Bytes}
    → read_full n c ≡ (ok x, c')
    → (c.incoming ≡ x ++ c'.incoming) × (length x ≡ n) × (c' ≡ record c { incoming = c'.incoming })
unfolding read_full
read_full_sound n c h = ground (arith, take-append-drop n c.incoming, length-take n c.incoming)

pub frame_body_sound :
    (size n : ℕ) (c : Conn) {c' : Conn} {x : Bytes}
    → frame_body size n c ≡ (ok x, c')
    → (0 < n) × (n ≤ max_frame_size) × (n ≤ size) × (read_full n c ≡ (ok x, c'))
frame_body_sound size n c h = ground arith

pub read_frame_parts :
    (size : ℕ) (c : Conn) {c' : Conn} {x : Bytes}
    → read_frame size c ≡ (ok x, c')
    → (hdr : Bytes) × (c₁ : Conn) × (read_full 4 c ≡ (ok hdr, c₁))
      × (frame_body size (uint32 hdr) c₁ ≡ (ok x, c'))
unfolding read_frame
read_frame_parts size c h =
    let (hdr, c₁, e, k) =
      bind-eq-ok (annotate "read frame header" (read_full 4)) (λ hdr. frame_body size (uint32 hdr))
        c h in
    (hdr, c₁, annotate-eq-ok "read frame header" (read_full 4) c e, k)

header_bytes :
    (hdr x : Bytes)
    → All IsByte hdr
    → length hdr ≡ 4
    → length x ≡ uint32 hdr
    → put_uint32 (length x) ≡ hdr
header_bytes (a ∷ b ∷ c ∷ d ∷ []) x (ha, (hb, (hc, (hd, _)))) e n =
    rw n (put_uint32-uint32 a b c d ha hb hc hd)
header_bytes [] x h e n = absurd (omega arith)
header_bytes (a ∷ []) x h e n = absurd (omega arith)
header_bytes (a ∷ b ∷ []) x h e n = absurd (omega arith)
header_bytes (a ∷ b ∷ c ∷ []) x h e n = absurd (omega arith)
header_bytes (a ∷ b ∷ c ∷ d ∷ z ∷ zs) x h e n = absurd (omega arith)

-- If `read_frame` succeeds on a stream of bytes, then the stream began with the frame of the
-- result, which has 1 to `max_frame_size` bytes and fits the buffer; nothing behind it is taken.
pub read_frame_sound :
    (size : ℕ) (c c' : Conn) (x : Bytes)
    → All IsByte c.incoming
    → read_frame size c ≡ (ok x, c')
    → (c.incoming ≡ frame x ++ c'.incoming)
      × (0 < length x)
      × (length x ≤ max_frame_size)
      × (length x ≤ size)
      × (c' ≡ record c { incoming = c'.incoming })
read_frame_sound size c c' x bytes h =
    let (hdr, c₁, e₁, e₂) = read_frame_parts size c h in
    let (i₁, n₁, k₁) = read_full_sound 4 c e₁ in
    let (lo, hi, fits, e₃) = frame_body_sound size (uint32 hdr) c₁ e₂ in
    let (i₂, n₂, k₂) = read_full_sound (uint32 hdr) c₁ e₃ in
    let hb : All IsByte hdr = All-front IsByte hdr c₁.incoming (subst (All IsByte) i₁ bytes) in
    let p : put_uint32 (length x) ≡ hdr = header_bytes hdr x hb n₁ n₂ in
    (
      i₁ ∙ ap (λ t. hdr ++ t) i₂ ∙ ap (λ t. t ++ (x ++ c'.incoming)) (sym p),
      omega arith,
      omega arith,
      omega arith,
      ground (arith, k₁, k₂),
    )
