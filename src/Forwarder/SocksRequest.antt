-- ===== src/Forwarder/SocksRequest.antt =====
-- What a SOCKS5 client sends, and what src/client/forwarder.rs reads from it.
use tls_tunnel.Prelude.{
  ℕ, zero, suc, ◌+◌, ◌-◌, ◌*◌, ◌/◌, ◌%◌, ◌<◌, ◌≤◌, ◌≡◌, refl, ap, sym, ◌∙◌, true, false, not, ◌||◌,
  List, All, if◌then◌else◌, decimal, reads-decimal, [], ◌∷◌, ◌++◌, Str, length, ltb, ◌==◌, nat_eq,
  with_port, arith, append_assoc, append_nil, ok,
}
use tls_tunnel.Visitor.Wire.{is_utf8, u16_bytes, u16_value, read_exact, read_exact-append}
use tls_tunnel.Forwarder.Talk.{Connection, receive, send, taken_from}
use tls_tunnel.Forwarder.Socks.{
  hex_digit, hex, show_v4, show_v6, read_v4, read_domain, read_v6, read_host, chosen_no_auth,
  succeeded, greet, check_command, parse_socks5,
}

-- The addresses of a request.
pub data Address : Type 0 where
  ipv4 : (a b c d : ℕ) → Address
  domain : (name : Str) → Address
  ipv6 : (bytes : Str) → Address

abbrev pub IsSendable : Address → Type 0
IsSendable (ipv4 a b c d) = Unit
IsSendable (domain name) = (0 < length name) × (length name < 256) × (is_utf8 name ≡ true)
IsSendable (ipv6 bytes) = (length bytes ≡ 16) × All (λ b. b < 256) bytes

abbrev pub type_of : Address → ℕ
type_of (ipv4 a b c d) = 1
type_of (domain name) = 3
type_of (ipv6 bytes) = 4

abbrev pub body_of : Address → Str
body_of (ipv4 a b c d) = a ∷ b ∷ c ∷ d ∷ []
body_of (domain name) = length name ∷ name
body_of (ipv6 bytes) = bytes

abbrev pub host_of : Address → Str
host_of (ipv4 a b c d) = show_v4 (a ∷ b ∷ c ∷ d ∷ [])
host_of (domain name) = name
host_of (ipv6 bytes) = show_v6 bytes

-- The greeting with its methods, then the request to connect.
abbrev pub connect_request : Str → Address → ℕ → Str
connect_request methods address port =
    5
    ∷ length methods
    ∷ (methods ++ (5 ∷ 1 ∷ 0 ∷ type_of address ∷ (body_of address ++ u16_bytes port)))

abbrev pub talking : Str → Str → ℕ → Connection
talking input sent writable = record { input = input; sent = sent; writable = writable }

pub receive-append :
    (n : ℕ) (xs ys : Str) (sent : Str) (w : ℕ)
    → length xs ≡ n
    → receive n (talking (xs ++ ys) sent w) ≡ (ok xs, talking ys sent w)
unfolding receive
receive-append n xs ys sent w size =
    ap (taken_from (talking (xs ++ ys) sent w))
      (ap (λ k. read_exact k (xs ++ ys)) (sym size) ∙ read_exact-append xs ys)

pub send-writable :
    (bytes input sent : Str) (w : ℕ)
    → send bytes (talking input sent (suc w)) ≡ (ok tt, talking input (sent ++ bytes) w)
unfolding send
send-writable bytes input sent w = refl

in_byte : (n : ℕ) → 0 < n → n < 256 → not (n == 0 || ltb 255 n) ≡ true
in_byte n h k = ground (arith, h, k)

greet-methods :
    (methods rest sent : Str) (w : ℕ)
    → 0 < length methods
    → length methods < 256
    → greet (talking (5 ∷ length methods ∷ methods ++ rest) sent (suc w))
      ≡ (ok tt, talking rest (sent ++ chosen_no_auth) w)
unfolding greet
greet-methods methods rest sent w h k =
    rw
      (
        receive-append 2 (5 ∷ length methods ∷ []) (methods ++ rest) sent (suc w) refl,
        in_byte (length methods) h k,
        receive-append (length methods) methods rest sent (suc w) refl,
      )
      (send-writable chosen_no_auth rest sent w)

read_host-address :
    (a : Address) (rest sent : Str) (w : ℕ)
    → IsSendable a
    → read_host (type_of a) (talking (body_of a ++ rest) sent w)
      ≡ (ok (host_of a), talking rest sent w)
unfolding read_host read_v4 read_domain read_v6
read_host-address (ipv4 a b c d) rest sent w h =
    rw (receive-append 4 (a ∷ b ∷ c ∷ d ∷ []) rest sent w refl) refl
read_host-address (domain name) rest sent w h =
    rw
      (
        receive-append 1 (length name ∷ []) (name ++ rest) sent w refl,
        in_byte (length name) h.0 h.1,
        receive-append (length name) name rest sent w refl,
        h.2,
      )
      refl
read_host-address (ipv6 bytes) rest sent w h = rw (receive-append 16 bytes rest sent w h.0) refl

-- The values of the groups of digits in the text of an address.
abbrev digit_value : ℕ → ℕ
digit_value c = if ltb c 58 then c - 48 else c - 87

abbrev pub groups : ℕ → ℕ → ℕ → Str → List ℕ
groups base separator acc [] = acc ∷ []
groups base separator acc (c ∷ s) = elim (c == separator) [
  | true ↦ acc ∷ groups base separator 0 s
  | false ↦ groups base separator (acc * base + digit_value c) s
]

-- The groups of an IPv6 address, two bytes each.
abbrev pub pairs : Str → List ℕ
pairs (a ∷ b ∷ bytes) = (a * 256 + b) ∷ pairs bytes
pairs _ = []

-- A text names an address: four decimal numbers with dots, the domain itself, or hexadecimal groups with colons.
abbrev pub Names : Address → Str → Type 0
Names (ipv4 a b c d) host = groups 10 46 0 host ≡ a ∷ b ∷ c ∷ d ∷ []
Names (domain name) host = host ≡ name
Names (ipv6 bytes) host = groups 16 58 0 host ≡ pairs bytes

groups_digit :
    (base separator acc c : ℕ) (s : Str)
    → (c == separator) ≡ false
    → groups base separator acc (c ∷ s) ≡ groups base separator (acc * base + digit_value c) s
groups_digit base separator acc c s other = rw (other, groups)

decimal_group :
    (acc c : ℕ) (s : Str)
    → 48 ≤ c
    → c < 58
    → groups 10 46 acc (c ∷ s) ≡ groups 10 46 (acc * 10 + (c - 48)) s
decimal_group acc c s h k =
    let value : acc * 10 + digit_value c ≡ acc * 10 + (c - 48) = ground arith in
    groups_digit 10 46 acc c s (ground arith) ∙ ap (λ n. groups 10 46 n s) value

hex_group :
    (acc b : ℕ) (s : Str) → b < 256 → groups 16 58 acc (hex b ++ s) ≡ groups 16 58 (acc * 256 + b) s
hex_group acc b s h =
    let high = hex_digit (b / 16 % 16) in
    let low = hex_digit (b % 16) in
    let value : (acc * 16 + digit_value high) * 16 + digit_value low ≡ acc * 256 + b =
      ground arith in
    groups_digit 16 58 acc high (low ∷ s) (ground arith)
    ∙ groups_digit 16 58 (acc * 16 + digit_value high) low s (ground arith)
    ∙ ap (λ n. groups 16 58 n s) value

dotted : (n : ℕ) (rest : Str) → groups 10 46 0 (decimal n ++ 46 ∷ rest) ≡ n ∷ groups 10 46 0 rest
dotted n rest = reads-decimal (groups 10 46) decimal_group n (46 ∷ rest)

show_v4-Names : (a b c d : ℕ) → groups 10 46 0 (show_v4 (a ∷ b ∷ c ∷ d ∷ [])) ≡ a ∷ b ∷ c ∷ d ∷ []
unfolding show_v4
show_v4-Names a b c d =
    let shape : ◌≡◌ {A = Str} (show_v4 (a ∷ b ∷ c ∷ d ∷ []))
        (decimal a ++ (46 ∷ (decimal b ++ (46 ∷ (decimal c ++ (46 ∷ (decimal d ++ []))))))) =
      simp (append_assoc, append_nil) in
    ap (groups 10 46 0) shape
    ∙ dotted a (decimal b ++ (46 ∷ (decimal c ++ (46 ∷ (decimal d ++ [])))))
    ∙ ap (◌∷◌ a) (
        dotted b (decimal c ++ (46 ∷ (decimal d ++ [])))
        ∙ ap (◌∷◌ b) (
            dotted c (decimal d ++ [])
            ∙ ap (◌∷◌ c) (reads-decimal (groups 10 46) decimal_group d [])))

show_v6-Names :
    (k : ℕ) (bytes : Str)
    → length bytes ≡ 2 * k + 2
    → All (λ b. b < 256) bytes
    → groups 16 58 0 (show_v6 bytes) ≡ pairs bytes
unfolding show_v6
show_v6-Names k [] e h = absurd (omega (arith, e))
show_v6-Names k (a ∷ []) e h = absurd (omega (arith, e))
show_v6-Names k (a ∷ b ∷ []) e h =
    let value : (0 * 256 + a) * 256 + b ≡ a * 256 + b = omega arith in
    hex_group 0 a (hex b) h.0 ∙ hex_group (0 * 256 + a) b [] h.1.0 ∙ ap (λ n. n ∷ []) value
show_v6-Names zero (a ∷ b ∷ c ∷ bytes) e h = absurd (omega (arith, e))
show_v6-Names (suc k) (a ∷ b ∷ c ∷ bytes) e h =
    let value : (0 * 256 + a) * 256 + b ≡ a * 256 + b = omega arith in
    let rest = show_v6 (c ∷ bytes) in
    hex_group 0 a (hex b ++ 58 ∷ rest) h.0
    ∙ hex_group (0 * 256 + a) b (58 ∷ rest) h.1.0
    ∙ ap (λ n. n ∷ groups 16 58 0 rest) value
    ∙ ap (◌∷◌ (a * 256 + b)) (show_v6-Names k (c ∷ bytes) (omega (arith, e)) h.1.1)

host_of-Names : (a : Address) → IsSendable a → Names a (host_of a)
host_of-Names (ipv4 a b c d) h = show_v4-Names a b c d
host_of-Names (domain name) h = refl
host_of-Names (ipv6 bytes) h = show_v6-Names 7 bytes (omega (arith, h.0)) h.1

request_is_parsed :
    (methods rest sent : Str) (a : Address) (port w : ℕ)
    → 0 < length methods
    → length methods < 256
    → IsSendable a
    → port < 65536
    → parse_socks5 (record {
      input = connect_request methods a port ++ rest;
      sent = sent;
      writable = suc (suc w);
    })
      ≡ (
        ok (with_port (host_of a) port),
        record { input = rest; sent = (sent ++ chosen_no_auth) ++ succeeded; writable = w },
      )
unfolding parse_socks5 check_command
request_is_parsed methods rest sent a port w h k s p =
    let later = (body_of a ++ u16_bytes port) ++ rest in
    let shape : (methods ++ (5 ∷ 1 ∷ 0 ∷ type_of a ∷ (body_of a ++ u16_bytes port))) ++ rest
        ≡ methods ++ (5 ∷ 1 ∷ 0 ∷ type_of a ∷ later) =
      append_assoc methods (5 ∷ 1 ∷ 0 ∷ type_of a ∷ (body_of a ++ u16_bytes port)) rest in
    let told = sent ++ chosen_no_auth in
    rw
      (
        shape,
        greet-methods methods (5 ∷ 1 ∷ 0 ∷ type_of a ∷ later) sent (suc w) h k,
        receive-append 4 (5 ∷ 1 ∷ 0 ∷ type_of a ∷ []) later told (suc w) refl,
        append_assoc (body_of a) (u16_bytes port) rest,
        read_host-address a (u16_bytes port ++ rest) told (suc w) s,
        receive-append 2 (u16_bytes port) rest told (suc w) refl,
        u16_value port p,
        send-writable succeeded rest told w,
      )
      refl

-- A request to connect with at least one method, sent to a connection that can be written to twice, gives the port
-- and a text that names the address, whatever follows: the four bytes of an IPv4 address in decimal, the name of a
-- domain, or the eight groups of an IPv6 address in hexadecimal. The client has been told of success.
pub parse_socks5-connect_request :
    (methods rest sent : Str) (a : Address) (port w : ℕ)
    → 0 < length methods
    → length methods < 256
    → IsSendable a
    → port < 65536
    → (host : Str) × Names a host
      × (parse_socks5 (record {
        input = connect_request methods a port ++ rest;
        sent = sent;
        writable = suc (suc w);
      })
          ≡ (
            ok (with_port host port),
            record { input = rest; sent = (sent ++ chosen_no_auth) ++ succeeded; writable = w },
          ))
parse_socks5-connect_request methods rest sent a port w h k s p =
    (host_of a, host_of-Names a s, request_is_parsed methods rest sent a port w h k s p)
