-- ===== src/Visitor/Handler.antt =====
-- `handle_visitor_stream` and `handle_forward_request` of src/server/visitor.rs up to the transfer of
-- data. The name service and the dialling of a target are parameters, and so is whether the
-- confirmation can be written and what the session that owns a proxy answers.
use tls_tunnel.Prelude.{
  ℕ, Bool, not, ◌||◌, ◌&&◌, Option, none, some, [], ◌∷◌, ◌++◌, length, take, leb, ltb,
  if◌then◌else◌, Str, codes, decimal, ◌==◌, nat_eq, list_eq, pair_eq, lookup, strip_prefix, Outcome,
  ok, err, ◌>>=◌, ◌>>◌, ensure, ok_or,
}
use tls_tunnel.Config.Types.{ServerConfig}
use tls_tunnel.Server.World.{ProxyRegistry, ProxyRegistration}
use tls_tunnel.Visitor.Wire.{read_exact, u16_bytes, read_u16, is_utf8}
use tls_tunnel.Visitor.Address.{Resolver, is_local_address}

-- The errors of the handler, `unreachable` with the system's text.
pub data Failure : Type 0 where
  name_length_missing bad_name_length name_missing name_not_utf8 port_missing : Failure
  not_found : Str → ℕ → Failure
  confirmation_lost owner_gone no_stream header_lost : Failure
  not_enabled : Failure
  denied : Str → Failure
  unreachable : Str → Str → Failure

unfoldable pub send_error_message : Str → Str
send_error_message message = u16_bytes (length message) ++ message

unfoldable pub not_found_text : Str → ℕ → Str
unfolding decimal
not_found_text name port =
    codes "Proxy '"
    ++ name
    ++ codes "' with publish_port "
    ++ decimal port
    ++ codes " not found or client not connected"

-- The text that goes to the client, where there is one.
unfoldable pub message_of : Failure → Option Str
unfolding not_found_text
message_of bad_name_length = some (codes "Invalid proxy name length (must be 1-255 bytes)")
message_of (not_found name port) = some (not_found_text name port)
message_of not_enabled = some (codes "Forward feature is not enabled on server")
message_of (denied target) =
    some
      (codes "Access denied: cannot forward to local or private address '" ++ target ++ codes "'")
message_of (unreachable target reason) =
    some (codes "Failed to connect to " ++ target ++ codes ": " ++ reason)
message_of _ = none

-- A byte 0 and the message, or nothing.
unfoldable pub refusal : Failure → Str
unfolding message_of send_error_message
refusal f = elim (message_of f) [ none ↦ [] | some m ↦ 0 ∷ send_error_message m ]

pub record Request : Type 0 where
  pub name : Str
  pub publish_port : ℕ

unfoldable pub read_request : Str → Outcome Failure Request
unfolding read_u16 read_exact
read_request input = do
  (name_len, behind_length) ← ok_or (read_u16 input) name_length_missing
  ensure (not (name_len == 0 || ltb 255 name_len)) bad_name_length
  (name, behind_name) ← ok_or (read_exact name_len behind_length) name_missing
  ensure (is_utf8 name) name_not_utf8
  (port, rest) ← ok_or (read_u16 behind_name) port_missing
  ok (record { name = name; publish_port = port })

-- How the session of the owner answers a request for a stream, and how many bytes the stream takes before a
-- write fails, and whether it can be flushed.
pub data Owner : Type 0 where
  gone silent : Owner
  opens : (taken : ℕ) (flushed : Bool) → Owner

pub record Environment : Type 0 where
  pub registry : ProxyRegistry
  pub config : ServerConfig
  pub resolve : Resolver
  pub connect : Str → Outcome Str (Unit {0})
  pub confirms : Bool
  pub owner : ℕ → Owner

-- What the handler did: bytes to the visitor, the stream asked of an owner (channel, local port, name),
-- bytes on that stream, the target dialled, and how it ended; `ok` starts the transfer.
pub record Handled : Type 0 where
  pub written : Str
  pub asked : Option (ℕ × ℕ × Str)
  pub to_owner : Str
  pub dialled : Option Str
  pub outcome : Outcome Failure (Unit {0})

abbrev pub refuse : Failure → Handled
refuse f = record {
  written = refusal f;
  asked = none;
  to_owner = [];
  dialled = none;
  outcome = err f;
}

unfoldable pub after_connect : Environment → Str → Outcome Str (Unit {0}) → Handled
unfolding refusal
after_connect env target (err reason) = record (refuse (unreachable target reason)) {
  dialled = some target;
}
after_connect env target (ok done) =
    if env.confirms
    then record {
      written = 1 ∷ [];
      asked = none;
      to_owner = [];
      dialled = some target;
      outcome = ok tt;
    }
    else record (refuse confirmation_lost) { dialled = some target }

unfoldable pub handle_forward_request : Environment → Str → Handled
unfolding is_local_address after_connect refusal
handle_forward_request env target =
    if not env.config.allow_forward
    then refuse not_enabled
    else if is_local_address env.resolve target
    then refuse (denied target)
    else after_connect env target (env.connect target)

-- A registered proxy: the confirmation, then a stream of the owner with the port in front.
unfoldable pub connect_to_owner : Environment → Request → ProxyRegistration → Handled
unfolding refusal
connect_to_owner env request reg =
    let asked : Option (ℕ × ℕ × Str) =
      some (reg.stream_tx, reg.proxy_info.local_port, request.name) in
    if not env.confirms then refuse confirmation_lost else elim (env.owner reg.stream_tx) [
      | gone ↦ record (refuse owner_gone) { written = 1 ∷ [] }
      | silent ↦ record (refuse no_stream) { written = 1 ∷ []; asked = asked }
      | opens taken flushed ↦ record {
        written = 1 ∷ [];
        asked = asked;
        to_owner = take taken (u16_bytes request.publish_port);
        dialled = none;
        outcome = ensure (leb 2 taken && flushed) header_lost;
      }
    ]

unfoldable pub handle_request : Environment → Request → Handled
unfolding handle_forward_request connect_to_owner refusal
handle_request env request = elim (strip_prefix (codes "@forward:") request.name) [
  | some target ↦ handle_forward_request env target
  | none ↦ elim (lookup (request.name, request.publish_port) env.registry) [
    | some reg ↦ connect_to_owner env request reg
    | none ↦ refuse (not_found request.name request.publish_port)
  ]
]

unfoldable pub handle_visitor_stream : Environment → Str → Handled
unfolding read_request handle_request refusal
handle_visitor_stream env input = elim (read_request input) [
  | err f ↦ refuse f
  | ok request ↦ handle_request env request
]
