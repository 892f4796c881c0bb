-- ===== src/Control/Framing.antt =====
-- The frames of the control stream in src/server/control_channel.rs: the length in four bytes, then the
-- message. What has arrived before the stream ended is a list of bytes.
use tls_tunnel.Prelude.{
  ℕ, ◌+◌, ◌*◌, ◌/◌, ◌%◌, ◌≤◌, ◌<◌, ◌≡◌, ap, ◌∙◌, none, some, [], ◌∷◌, ◌++◌, length, ltb,
  if◌then◌else◌, Str, arith,
}
use tls_tunnel.Visitor.Wire.{read_exact, read_exact-append}

abbrev pub max_message : ℕ
max_message = 10 * 1024 * 1024

-- `(n as u32).to_be_bytes()`
abbrev pub u32_bytes : ℕ → Str
u32_bytes n = (n / 16777216 % 256) ∷ (n / 65536 % 256) ∷ (n / 256 % 256) ∷ (n % 256) ∷ []

-- What `send_response` and its like write for a serialized message.
unfoldable pub encode : Str → Str
encode message = u32_bytes (length message) ++ message

-- The outcomes of one read: an end inside the length counts as closed, one inside the message does not.
pub data Frame : Type 0 where
  closed truncated : Frame
  too_large : ℕ → Frame
  message : Str → Str → Frame

unfoldable pub read_body : ℕ → Str → Frame
unfolding read_exact
read_body len rest =
    if ltb max_message len
    then too_large len
    else elim (read_exact len rest) [ some parts ↦ message parts.0 parts.1 | none ↦ truncated ]

unfoldable pub read_frame : Str → Frame
unfolding read_body
read_frame (a ∷ b ∷ c ∷ d ∷ rest) = read_body (a * 16777216 + b * 65536 + c * 256 + d) rest
read_frame _ = closed

u32_value :
    (n : ℕ)
    → n < 4294967296
    → n / 16777216 % 256 * 16777216 + n / 65536 % 256 * 65536 + n / 256 % 256 * 256 + n % 256 ≡ n
u32_value n h = omega arith

read_body_whole :
    (m rest : Str) → length m ≤ max_message → read_body (length m) (m ++ rest) ≡ message m rest
unfolding read_body
read_body_whole m rest h = rw (read_exact-append m rest) (ground (arith, h))

pub read_body_large :
    (len : ℕ) (rest : Str) → max_message < len → read_body len rest ≡ too_large len
unfolding read_body
read_body_large len rest h = ground arith

pub read_frame-encode :
    (m rest : Str) → length m ≤ max_message → read_frame (encode m ++ rest) ≡ message m rest
unfolding read_frame encode
read_frame-encode m rest h =
    ap (λ n. read_body n (m ++ rest)) (u32_value (length m) (omega arith))
    ∙ read_body_whole m rest h
