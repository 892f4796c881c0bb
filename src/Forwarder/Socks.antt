-- ===== src/Forwarder/Socks.antt =====
-- `parse_socks5` and `handle_socks5_auth` of src/client/forwarder.rs.
use tls_tunnel.Prelude.{
  ℕ, ◌+◌, ◌*◌, ◌/◌, ◌%◌, Bool, true, false, not, ◌||◌, ◌&&◌, Option, none, some, [], ◌∷◌, ◌++◌, Str,
  ltb, if◌then◌else◌, ◌==◌, nat_eq, list_eq, decimal, with_port, contains, is_some,
}
use tls_tunnel.Visitor.Wire.{is_utf8}
use tls_tunnel.Forwarder.Talk.{
  TalkError, no_methods, bad_domain_length, not_utf8, no_method, wrong_password, bad_version,
  bad_command, bad_address_type, Talk, ◌>>=◌, ◌>>◌, return, bail, receive, send, nth,
}

abbrev pub guard : Bool → TalkError → Talk (Unit {0})
guard true e = return tt
guard false e = bail e

-- `{:02x}`
abbrev pub hex_digit : ℕ → ℕ
hex_digit n = if ltb n 10 then 48 + n else 87 + n

abbrev pub hex : ℕ → Str
hex b = hex_digit (b / 16 % 16) ∷ hex_digit (b % 16) ∷ []

unfoldable pub show_v4 : Str → Str
show_v4 a =
    decimal (nth 0 a) ++ 46 ∷ decimal (nth 1 a) ++ 46 ∷ decimal (nth 2 a) ++ 46 ∷ decimal (nth 3 a)

-- Two bytes in a group, a colon between the groups.
unfoldable pub show_v6 : Str → Str
show_v6 (a ∷ b ∷ []) = hex a ++ hex b
show_v6 (a ∷ b ∷ rest) = hex a ++ hex b ++ 58 ∷ show_v6 rest
show_v6 _ = []

unfoldable pub read_v4 : Talk Str
read_v4 = do addr ← receive 4; return (show_v4 addr)

unfoldable pub read_domain : Talk Str
read_domain = do
  size ← receive 1
  let len = nth 0 size
  guard (not (len == 0 || ltb 255 len)) bad_domain_length
  domain ← receive len
  guard (is_utf8 domain) not_utf8
  return domain

unfoldable pub read_v6 : Talk Str
read_v6 = do addr ← receive 16; return (show_v6 addr)

-- The `match atyp`.
unfoldable pub read_host : ℕ → Talk Str
unfolding read_v4 read_domain read_v6
read_host atyp =
    if atyp == 1
    then read_v4
    else if atyp == 3
    then read_domain
    else if atyp == 4
    then read_v6
    else bail (bad_address_type atyp)

abbrev pub chosen_no_auth : Str
chosen_no_auth = 5 ∷ 0 ∷ []

abbrev pub command_not_supported : Str
command_not_supported = 5 ∷ 7 ∷ 0 ∷ 1 ∷ 0 ∷ 0 ∷ 0 ∷ 0 ∷ 0 ∷ 0 ∷ []

abbrev pub succeeded : Str
succeeded = 5 ∷ 0 ∷ 0 ∷ 1 ∷ 0 ∷ 0 ∷ 0 ∷ 0 ∷ 0 ∷ 0 ∷ []

unfoldable pub greet : Talk (Unit {0})
greet = do
  header ← receive 2
  guard (nth 0 header == 5) (bad_version (nth 0 header))
  let nmethods = nth 1 header
  guard (not (nmethods == 0 || ltb 255 nmethods)) no_methods
  methods ← receive nmethods
  send chosen_no_auth

-- Where the command is not CONNECT, the refusal and the error.
unfoldable pub check_command : ℕ → Talk (Unit {0})
check_command cmd =
    if cmd == 1 then return tt else (send command_not_supported >> bail (bad_command cmd))

unfoldable pub parse_socks5 : Talk Str
unfolding greet check_command read_host
parse_socks5 = do
  greet
  request ← receive 4
  guard (nth 0 request == 5) (bad_version (nth 0 request))
  check_command (nth 1 request)
  host ← read_host (nth 3 request)
  port ← receive 2
  let target = with_port host (nth 0 port * 256 + nth 1 port)
  send succeeded
  return target

pub record Socks5Auth : Type 0 where
  pub username : Str
  pub password : Str

unfoldable pub select_method : Option Socks5Auth → Str → Talk ℕ
select_method auth methods =
    if is_some auth && contains 2 methods
    then return 2
    else if contains 0 methods
    then return 0
    else (send (5 ∷ 255 ∷ []) >> bail no_method)

-- What follows when the name and the password have been read.
unfoldable pub verify : Socks5Auth → Str → Str → Talk (Unit {0})
verify auth username password = do
  guard (is_utf8 username) not_utf8
  guard (is_utf8 password) not_utf8
  if username == auth.username && password == auth.password
      then send (1 ∷ 0 ∷ [])
      else (send (1 ∷ 1 ∷ []) >> bail wrong_password)

unfoldable pub check_password : Socks5Auth → Talk (Unit {0})
unfolding verify
check_password auth = do
  auth_buf ← receive 2
  username ← receive (nth 1 auth_buf)
  password_len ← receive 1
  password ← receive (nth 0 password_len)
  verify auth username password

abbrev pub authenticate_by : ℕ → Option Socks5Auth → Talk (Unit {0})
unfolding check_password verify
authenticate_by selected none = return tt
authenticate_by selected (some auth) = if selected == 2 then check_password auth else return tt

unfoldable pub handle_socks5_auth : Option Socks5Auth → Talk (Unit {0})
unfolding select_method check_password verify
handle_socks5_auth auth = do
  buffer ← receive 2
  methods ← receive (nth 1 buffer)
  selected ← select_method auth methods
  send (5 ∷ selected ∷ [])
  authenticate_by selected auth
