-- ===== src/Visitor/Client.antt =====
-- The client's side: `handle_visitor_connection` of src/client/visitor.rs up to the transfer, and
-- `read_error_message` of src/client/config.rs.
use tls_tunnel.Prelude.{
  ℕ, not, [], ◌∷◌, ◌++◌, length, ltb, if◌then◌else◌, Str, codes, ◌==◌, nat_eq, Outcome, ok, err,
  ◌>>=◌, ◌>>◌, ensure, ok_or,
}
use tls_tunnel.Config.Types.{VisitorConfig}
use tls_tunnel.Visitor.Wire.{read_exact, u16_bytes, read_u16, is_utf8}

-- What is sent for a name and a port; a forwarder sends "@forward:" with its target, and port 0.
unfoldable pub encode_request : Str → ℕ → Str
encode_request name publish_port = u16_bytes (length name) ++ name ++ u16_bytes publish_port

unfoldable pub visitor_request : VisitorConfig → Str
unfolding encode_request
visitor_request visitor = encode_request visitor.name visitor.publish_port

unfoldable pub forward_request : Str → Str
unfolding encode_request
forward_request target = encode_request (codes "@forward:" ++ target) 0

pub data ReadError : Type 0 where
  closed_early too_long not_utf8 : ReadError

unfoldable pub read_error_message : Str → Outcome ReadError Str
unfolding read_u16 read_exact
read_error_message input = do
  (msg_len, rest) ← ok_or (read_u16 input) closed_early
  ensure (not (ltb 4096 msg_len)) too_long
  (message, behind) ← ok_or (read_exact msg_len rest) closed_early
  ensure (is_utf8 message) not_utf8
  ok message

-- What the client makes of the server's bytes: it goes on to the transfer with `accepted`.
pub data Confirmation : Type 0 where
  accepted : Confirmation
  rejected : Str → Confirmation
  no_confirmation : Confirmation

unfoldable pub read_confirmation : Str → Confirmation
unfolding read_error_message
read_confirmation [] = no_confirmation
read_confirmation (c ∷ rest) = if c == 1 then accepted else elim (read_error_message rest) [
  | ok message ↦ rejected message
  | err e ↦ rejected (codes "Unknown error")
]
