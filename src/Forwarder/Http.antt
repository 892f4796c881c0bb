-- ===== src/Forwarder/Http.antt =====
-- `parse_http_request`, `handle_http_connect` and `handle_http_direct` of src/client/forwarder.rs. The
-- letters' case, the url library and the order in which a `HashMap` is walked are parameters.
use tls_tunnel.Prelude.{
  ℕ, suc, ◌-◌, Bool, ◌||◌, Option, none, some, List, [], ◌∷◌, ◌++◌, Str, codes, leb, length, take,
  drop, if◌then◌else◌, ◌==◌, nat_eq, list_eq, Table, lookup, insert, Outcome, ok, err, ◌>>=◌,
  with_port, strip_prefix, is_some, contains,
}
use tls_tunnel.Forwarder.Text.{from_utf8_lossy, lines, split_whitespace, trim}

pub data HttpError : Type 0 where
  unexpected_eof empty_request invalid_line too_long invalid_target invalid_url no_host no_target :
      HttpError

pub record HttpRequest : Type 0 where
  pub method : Str
  pub target : Str
  pub headers : Table Str Str
  pub raw_request : Str

abbrev pub http_parse_buffer_size : ℕ
http_parse_buffer_size = 16384

abbrev pub crlf2 : Str
crlf2 = 13 ∷ 10 ∷ 13 ∷ 10 ∷ []

-- How many bytes end with the first "\r\n\r\n".
unfoldable pub find_end : Str → Option ℕ
find_end [] = none
find_end (c ∷ s) =
    let later : Option ℕ = elim (find_end s) [ none ↦ none | some n ↦ some (suc n) ] in
    if is_some (strip_prefix crlf2 (c ∷ s)) then some 4 else later

-- `line.find(':')`, and the two parts.
unfoldable pub split_colon : Str → Option (Str × Str)
split_colon [] = none
split_colon (c ∷ s) =
    let later : Option (Str × Str) = elim (split_colon s) [
      | none ↦ none
      | some parts ↦ some (c ∷ parts.0, parts.1)
    ] in
    if c == 58 then some ([], s) else later

module _ (to_lowercase : Str → Str) where
  unfoldable pub add_header : Table Str Str → Str → Table Str Str
  unfolding split_colon
  add_header headers line = elim (split_colon line) [
    | none ↦ headers
    | some parts ↦ insert (to_lowercase (trim parts.0)) (trim parts.1) headers
  ]

  unfoldable pub add_headers : Table Str Str → List Str → Table Str Str
  unfolding add_header
  add_headers headers [] = headers
  add_headers headers (line ∷ rest) = add_headers (add_header headers line) rest

  unfoldable pub parse_lines : Str → List Str → Outcome HttpError HttpRequest
  unfolding add_headers
  parse_lines raw [] = err empty_request
  parse_lines raw (first ∷ rest) = elim (split_whitespace first) [
    | method ∷ target ∷ words ↦ ok (record {
      method = method;
      target = target;
      headers = add_headers [] rest;
      raw_request = raw;
    })
    | word ∷ [] ↦ err invalid_line
    | [] ↦ err invalid_line
  ]

  -- What is made of the bytes up to the end of the head.
  unfoldable pub parse_head : Str → Outcome HttpError HttpRequest
  unfolding parse_lines
  parse_head head = parse_lines head (lines (from_utf8_lossy head))

  -- The loop: each element of the input is what one `read` finds, and what does not fit into the buffer stays
  -- on the connection. The end of the input is the end of the connection, or of the time. Beside the result
  -- is what is left on the connection; what the buffer holds behind the head is dropped.
  unfoldable pub read_head : Str → List Str → Outcome HttpError HttpRequest × List Str
  unfolding parse_head find_end
  read_head buffer [] = (err unexpected_eof, [])
  read_head buffer (chunk ∷ chunks) =
      let room = http_parse_buffer_size - length buffer in
      let filled = buffer ++ take room chunk in
      let left = drop room chunk in
      let again = read_head filled chunks in
      if length chunk == 0 then (err unexpected_eof, chunks) else elim (find_end filled) [
        | some n ↦ (parse_head (take n filled), left ∷ chunks)
        | none ↦
            if leb http_parse_buffer_size (length filled)
            then (err too_long, left ∷ chunks)
            else again
      ]

  abbrev pub parse_http_request : List Str → Outcome HttpError HttpRequest × List Str
  parse_http_request input = read_head [] input

-- `handle_http_connect`: the reply that is written, before anything is connected to.
abbrev pub connection_established : Str
connection_established = codes "HTTP/1.1 200 Connection Established\r\n\r\n"

unfoldable pub handle_http_connect : Str → Outcome HttpError Str
handle_http_connect target =
    if contains 58 target then ok connection_established else err invalid_target

-- What the url library tells of a url.
pub record Url : Type 0 where
  pub host : Option Str
  pub port : Option ℕ
  pub scheme : Str
  pub path : Str
  pub query : Option Str

abbrev pub port_of : Url → ℕ
port_of u = elim u.port [ some port ↦ port | none ↦ if u.scheme == codes "https" then 443 else 80 ]

unfoldable pub url_target : Option Url → Outcome HttpError Str
url_target none = err invalid_url
url_target (some u) = elim u.host [
  | none ↦ err no_host
  | some host ↦ ok (with_port host (port_of u))
]

unfoldable pub direct_target : (Str → Option Url) → HttpRequest → Outcome HttpError Str
unfolding url_target
direct_target parse_url req =
    if is_some (strip_prefix (codes "http://") req.target)
      || is_some (strip_prefix (codes "https://") req.target)
    then url_target (parse_url req.target)
    else elim (lookup (codes "host") req.headers) [ some host ↦ ok host | none ↦ err no_target ]

abbrev pub path_and_query : Url → Str
path_and_query u = elim u.query [ none ↦ u.path | some query ↦ u.path ++ 63 ∷ query ]

unfoldable pub direct_path : (Str → Option Url) → HttpRequest → Str
direct_path parse_url req =
    if is_some (strip_prefix (codes "http") req.target)
    then elim (parse_url req.target) [ none ↦ codes "/" | some u ↦ path_and_query u ]
    else req.target

abbrev pub is_dropped : Str → Bool
is_dropped key =
    key == codes "proxy-connection" || key == codes "connection" || key == codes "keep-alive"

abbrev pub crlf : Str
crlf = 13 ∷ 10 ∷ []

unfoldable pub header_lines : List (Str × Str) → Str
header_lines [] = []
header_lines ((key, text) ∷ rest) =
    let later = header_lines rest in
    if is_dropped key then later else key ++ codes ": " ++ text ++ crlf ++ later

unfoldable pub modified_request :
    (Str → Option Url) → (Table Str Str → List (Str × Str)) → HttpRequest → Str
unfolding direct_path header_lines
modified_request parse_url walk req =
    req.method
    ++ codes " "
    ++ direct_path parse_url req
    ++ codes " HTTP/1.1\r\n"
    ++ header_lines (walk req.headers)
    ++ codes "Connection: close\r\n\r\n"

unfoldable pub handle_http_direct :
    (Str → Option Url)
    → (Table Str Str → List (Str × Str))
    → HttpRequest
    → Outcome HttpError (Str × Str)
unfolding direct_target modified_request
handle_http_direct parse_url walk req = do
  target ← direct_target parse_url req
  ok (modified_request parse_url walk req, target)
