-- ===== src/Visitor/Transfer.antt =====
-- The two sides of a visitor's request agree: src/client/visitor.rs, src/client/config.rs and
-- src/server/visitor.rs.
use tls_tunnel.Prelude.{
  ℕ, ◌≤◌, ◌<◌, ◌≡◌, ◌↔◌, ◌&&◌, zero, suc, refl, ap, sym, ◌∙◌, Bool, true, none, some, [], ◌∷◌, ◌++◌,
  length, Str, codes, decimal, decimal-Ascii, length-decimal, length-append, arith, nat_eq, list_eq,
  pair_eq, lookup, strip_prefix, append_assoc, append_nil, ok, err, ensure, ensure-eq-ok, take, leb,
}
use tls_tunnel.Config.Types.{VisitorConfig}
use tls_tunnel.Server.World.{ProxyRegistration}
use tls_tunnel.Visitor.Wire.{
  u16_bytes, read_u16, is_utf8, utf8_from, next, u16_value, read_exact-append,
}
use tls_tunnel.Visitor.Utf8.{is_utf8-append, ascii-is_utf8}
use tls_tunnel.Visitor.Handler.{
  header_lost, not_found, send_error_message, refusal, refuse, not_found_text, read_request, opens,
  Environment, Handled, connect_to_owner, handle_request, handle_visitor_stream,
}
use tls_tunnel.Visitor.Client.{
  encode_request, visitor_request, read_error_message, accepted, rejected, read_confirmation,
}

-- A name that can be asked for.
pub record IsName (name : Str) : Type 0 where
  pub nonempty : 0 < length name
  pub short : length name ≤ 255
  pub text : is_utf8 name ≡ true

-- What the client sends for a name of 1 to 255 bytes and a port is read as this name and port, whatever
-- follows.
pub read_request-encode_request :
    (name rest : Str) (port : ℕ)
    → IsName name
    → port < 65536
    → read_request (encode_request name port ++ rest)
      ≡ ok (record { name = name; publish_port = port })
unfolding read_request encode_request
read_request-encode_request name rest port n h =
    let len = u16_value (length name) (omega (arith, n)) in
    let shape = append_assoc name (u16_bytes port) rest in
    let body = read_exact-append name (u16_bytes port ++ rest) in
    rw (len, shape, body) (ground (arith, n.nonempty, n.short, n.text, u16_value port h))

-- What the server sends as an error message of at most 4096 bytes is read as this message, whatever
-- follows.
pub read_error_message-send_error_message :
    (message rest : Str)
    → length message ≤ 4096
    → is_utf8 message ≡ true
    → read_error_message (send_error_message message ++ rest) ≡ ok message
unfolding read_error_message send_error_message
read_error_message-send_error_message message rest h t =
    let len = u16_value (length message) (omega arith) in
    rw (len, read_exact-append message rest) (ground (arith, t))

text_of_missing :
    (name : Str) (port : ℕ) → is_utf8 name ≡ true → is_utf8 (not_found_text name port) ≡ true
unfolding not_found_text utf8_from next
text_of_missing name port h =
    let front = codes "Proxy '" ++ name in
    let middle = front ++ codes "' with publish_port " in
    let number = middle ++ decimal port in
    is_utf8-append number (codes " not found or client not connected")
      (is_utf8-append middle (decimal port)
        (is_utf8-append front (codes "' with publish_port ")
          (is_utf8-append (codes "Proxy '") name refl h) refl)
        (ascii-is_utf8 (decimal port) (decimal-Ascii port)))
      refl

length_of_missing :
    (name : Str) (port : ℕ)
    → length name ≤ 255
    → port < 65536
    → length (not_found_text name port) ≤ 4096
unfolding not_found_text
length_of_missing name port h k =
    let front = codes "Proxy '" ++ name in
    let middle = front ++ codes "' with publish_port " in
    let number = middle ++ decimal port in
    omega (
      arith,
      length-append number (codes " not found or client not connected"),
      length-append middle (decimal port),
      length-append front (codes "' with publish_port "),
      length-append (codes "Proxy '") name,
      length-decimal 4 port (omega arith),
    )

read_refusal :
    (text : Str)
    → length text ≤ 4096
    → is_utf8 text ≡ true
    → read_confirmation (0 ∷ send_error_message text) ≡ rejected text
unfolding read_confirmation
read_refusal text h t =
    let told =
      ap read_error_message (sym (append_nil (send_error_message text)))
      ∙ read_error_message-send_error_message text [] h t in
    rw (told, read_confirmation) refl

refusal_of_missing :
    (name : Str) (port : ℕ)
    → refusal (not_found name port) ≡ 0 ∷ send_error_message (not_found_text name port)
unfolding refusal
refusal_of_missing name port = refl

-- The owner reads the port exactly if both its bytes were taken.
told_port :
    (port taken : ℕ)
    → port < 65536
    → (read_u16 (take taken (u16_bytes port)) ≡ some (port, [])) ↔ (2 ≤ taken)
unfolding read_u16
told_port port zero h = (λ e. absurd (cc e), λ k. absurd (omega arith))
told_port port (suc zero) h = (λ e. absurd (cc e), λ k. absurd (omega arith))
told_port port (suc (suc zero)) h =
    (λ e. omega arith, λ k. ap (λ p. some (p, [])) (u16_value port h))
told_port port (suc (suc (suc n))) h =
    (λ e. omega arith, λ k. ap (λ p. some (p, [])) (u16_value port h))

starts :
    (taken : ℕ) (flushed : Bool)
    → (ensure (leb 2 taken && flushed) header_lost ≡ ok tt) ↔ ((2 ≤ taken) × (flushed ≡ true))
starts taken flushed = (
  λ e.
      let both = ensure-eq-ok (leb 2 taken && flushed) header_lost e in
      (ground (arith, both), ground (arith, both)),
  λ k. ground (arith, k.0, k.1),
)

module _ (env : Environment) (v : VisitorConfig) (rest : Str) (n : IsName v.name)
    (h : v.publish_port < 65536) (plain : strip_prefix (codes "@forward:") v.name ≡ none) where
  request_is_read :
      handle_visitor_stream env (visitor_request v ++ rest)
      ≡ handle_request env (record { name = v.name; publish_port = v.publish_port })
  unfolding handle_visitor_stream visitor_request
  request_is_read =
      rw (read_request-encode_request v.name rest v.publish_port n h, handle_visitor_stream) refl

  -- A visitor asks for a name of 1 to 255 bytes of UTF-8 that is no request to forward. If its proxy is
  -- registered, the confirmation can be written and the owner's session gives a stream, then the client reads that
  -- it is accepted, and the owner was asked for a stream to the proxy's local port. The published port is written
  -- whole on that stream exactly if it takes two bytes, and the transfer starts exactly if it can also be flushed.
  pub visitor-accepted :
      (reg : ProxyRegistration) (taken : ℕ) (flushed : Bool)
      → lookup (v.name, v.publish_port) env.registry ≡ some reg
      → env.confirms ≡ true
      → env.owner reg.stream_tx ≡ opens taken flushed
      → (let o = handle_visitor_stream env (visitor_request v ++ rest) in
          (read_confirmation o.written ≡ accepted)
          × (o.asked ≡ some (reg.stream_tx, reg.proxy_info.local_port, v.name))
          × ((read_u16 o.to_owner ≡ some (v.publish_port, [])) ↔ (2 ≤ taken))
          × ((o.outcome ≡ ok tt) ↔ ((2 ≤ taken) × (flushed ≡ true))))
  unfolding handle_request connect_to_owner read_confirmation read_u16
  visitor-accepted reg taken flushed found confirms opened =
      rw (request_is_read, handle_request, plain, found, connect_to_owner, confirms, opened)
        (refl, refl, told_port v.publish_port taken h, starts taken flushed)

  request_is_refused :
      lookup (v.name, v.publish_port) env.registry ≡ none
      → handle_visitor_stream env (visitor_request v ++ rest)
        ≡ refuse (not_found v.name v.publish_port)
  unfolding handle_request
  request_is_refused missing = rw (request_is_read, handle_request, plain, missing) refl

  -- A visitor asks for a name of 1 to 255 bytes of UTF-8 that is no request to forward. If its proxy is not registered, it gets the server's message in full, and no
  -- owner is asked.
  pub visitor-rejected :
      lookup (v.name, v.publish_port) env.registry ≡ none
      → (let o = handle_visitor_stream env (visitor_request v ++ rest) in
          (read_confirmation o.written ≡ rejected (not_found_text v.name v.publish_port))
          × (o.asked ≡ none)
          × (o.outcome ≡ err (not_found v.name v.publish_port)))
  visitor-rejected missing =
      let same = request_is_refused missing in
      (
        ap (λ (o : Handled). read_confirmation o.written) same
            ∙ ap read_confirmation (refusal_of_missing v.name v.publish_port)
            ∙ read_refusal (not_found_text v.name v.publish_port)
                (length_of_missing v.name v.publish_port n.short h)
                (text_of_missing v.name v.publish_port n.text),
        ap (λ (o : Handled). o.asked) same,
        ap (λ (o : Handled). o.outcome) same,
      )
