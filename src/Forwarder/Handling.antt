-- ===== src/Forwarder/Handling.antt =====
-- `handle_forwarder_connection` and `handle_direct_connection` of src/client/forwarder.rs: from the request
-- of one local connection to the end of its transfer.
use tls_tunnel.Prelude.{
  ℕ, Bool, true, false, not, ◌&&◌, Option, none, some, List, [], ◌∷◌, ◌++◌, Str, codes, decimal,
  length, if◌then◌else◌, ◌==◌, nat_eq, list_eq, Table, Outcome, ok, err, is_ok,
}
use tls_tunnel.Config.Types.{
  ForwarderConfig, ProxyType, tcp, http11, http2, ssh, http_proxy, socks5_proxy,
}
use tls_tunnel.Routing.Router.{System, GeoIpRouter, should_direct_connect}
use tls_tunnel.Visitor.Client.{
  forward_request, read_confirmation, Confirmation, accepted, rejected, no_confirmation,
}
use tls_tunnel.Visitor.Address.{Resolver}
use tls_tunnel.Client.Tracker.{ClientStatsTracker, connection_started, connection_ended}
use tls_tunnel.Forwarder.Targets.{FailedTargetManager, is_blacklisted, record_failure}
use tls_tunnel.Forwarder.Cache.{
  ConnectionPool, Dial, DialError, get_or_create, reusable_new, mark_error, drop_connection,
}
use tls_tunnel.Forwarder.Copy.{Read, copy_with_stats}
use tls_tunnel.Forwarder.Direct.{is_unsafe_direct_target}
use tls_tunnel.Forwarder.Http.{
  HttpError, HttpRequest, Url, parse_http_request, handle_http_connect, handle_http_direct,
}
use tls_tunnel.Forwarder.Socks.{parse_socks5}
use tls_tunnel.Forwarder.Talk.{TalkError, Connection}

pub data ForwardError : Type 0 where
  http_error : HttpError → ForwardError
  socks_error : TalkError → ForwardError
  dial_error : DialError → ForwardError
  reply_failed invalid_proxy_type blacklisted unsafe_target request_failed no_stream : ForwardError
  server_write_failed server_silent panicked : ForwardError
  server_rejected : Str → ForwardError

-- What the outside answers to one connection: what its client sends and whether the reply to CONNECT can be
-- written; the time and the sockets; the tunnel; and what is read in the two directions of the transfer.
pub record Surroundings : Type 0 where
  pub to_lowercase : Str → Str
  pub parse_url : Str → Option Url
  pub walk : Table Str Str → List (Str × Str)
  pub sys : System
  pub resolve : Resolver
  pub http_input : List Str
  pub socks_input : Connection
  pub reply_written : Bool
  pub now : ℕ
  pub alive : ℕ → Bool
  pub dial : Dial
  pub request_written : Bool
  pub stream_opened : Bool
  pub server_written : Bool
  pub server_reply : Str
  pub upward : List Read
  pub downward : List Read

-- What the tasks of a forwarder share, as one of them alone changes it.
pub record Shared : Type 0 where
  pub tracker : Option ClientStatsTracker
  pub targets : FailedTargetManager
  pub cache : ConnectionPool

-- The state behind, what the handler itself has written to the client, the target that it asked a connection
-- to, what it has written itself to that target or to the server, and its result.
pub record Handled : Type 0 where
  pub state : Shared
  pub replies : List Str
  pub dialled : Option Str
  pub requested : Option Str
  pub result : Outcome ForwardError (Unit {0})

abbrev pub http_503_direct : Str
http_503_direct =
    codes
      "HTTP/1.1 503 Service Unavailable\r\nContent-Type: text/plain\r\nConnection: close\r\n\r\nService temporarily unavailable"

abbrev pub http_502_direct : Str
http_502_direct =
    codes
      "HTTP/1.1 502 Bad Gateway\r\nContent-Type: text/plain\r\nConnection: close\r\n\r\nConnection failed"

abbrev pub http_503_blacklisted : Str
http_503_blacklisted =
    codes
      "HTTP/1.1 503 Service Unavailable\r\nContent-Type: text/plain\r\nContent-Length: 47\r\nConnection: close\r\n\r\nTarget is temporarily unavailable (blacklisted)"

unfoldable pub http_502_rejected : Str → Str
http_502_rejected message =
    codes "HTTP/1.1 502 Bad Gateway\r\nContent-Type: text/plain\r\nContent-Length: "
    ++ decimal (length message)
    ++ codes "\r\nConnection: close\r\n\r\n"
    ++ message

-- A tunnel to a target, or a request to be sent to it.
pub data Route : Type 0 where
  tunnel : (target : Str) → Route
  direct_request : (target request : Str) → Route

-- What has been written, and the route.
abbrev pub Parsed : Type 0
Parsed = List Str × Outcome ForwardError Route

unfoldable pub http_route : Surroundings → HttpRequest → Parsed
http_route env req =
    if req.method == codes "CONNECT"
    then elim (handle_http_connect req.target) [
      | err e ↦ ([], err (http_error e))
      | ok reply ↦
          if env.reply_written then (reply ∷ [], ok (tunnel req.target)) else ([], err reply_failed)
    ]
    else elim (handle_http_direct env.parse_url env.walk req) [
      | err e ↦ ([], err (http_error e))
      | ok parts ↦ ([], ok (direct_request parts.1 parts.0))
    ]

unfoldable pub socks_route : Outcome TalkError Str × Connection → Parsed
socks_route (err e, c) = (c.sent ∷ [], err (socks_error e))
socks_route (ok target, c) = (c.sent ∷ [], ok (tunnel target))

unfoldable pub parse_route : ProxyType → Surroundings → Parsed
unfolding http_route socks_route
parse_route http_proxy env = elim ((parse_http_request env.to_lowercase env.http_input).0) [
  | err e ↦ ([], err (http_error e))
  | ok req ↦ http_route env req
]
parse_route socks5_proxy env = socks_route (parse_socks5 env.socks_input)
parse_route _ env = ([], err invalid_proxy_type)

abbrev pub on_tracker : (ClientStatsTracker → ClientStatsTracker) → Shared → Shared
on_tracker f s = record s { tracker = elim s.tracker [ none ↦ none | some t ↦ some (f t) ] }

-- Both directions, whose bytes the tracker counts.
unfoldable pub transfer : Surroundings → ClientStatsTracker → ClientStatsTracker
transfer env t = record t {
  bytes_sent = (copy_with_stats t.bytes_sent env.upward).counter;
  bytes_received = (copy_with_stats t.bytes_received env.downward).counter;
}

unfoldable pub copied_well : Surroundings → Bool
copied_well env =
    is_ok (copy_with_stats 0 env.upward).result && is_ok (copy_with_stats 0 env.downward).result

abbrev pub ended : Shared → Shared
ended s = on_tracker connection_ended s

-- The transfer on a connection from the cache, which takes it back unless an error was seen.
unfoldable pub use_connection : Surroundings → Str → ℕ → Shared → Shared
unfolding transfer copied_well reusable_new mark_error
use_connection env target stream s =
    let c = reusable_new stream target in
    let done = on_tracker (transfer env) s in
    record done {
      cache = drop_connection done.cache (if copied_well env then c else mark_error c) env.now;
    }

abbrev pub failing : Shared → List Str → Option Str → ForwardError → Handled
failing s replies dialled e = record {
  state = s;
  replies = replies;
  dialled = dialled;
  requested = none;
  result = err e;
}

-- What follows the cache's answer to a request. Where the request cannot be written, `?` returns at once: the
-- connection is given back, and `connection_ended` is not called.
unfoldable pub send_request :
    Surroundings → Shared → Str → Str → ConnectionPool × Outcome DialError ℕ → Handled
unfolding use_connection reusable_new
send_request env s target request (cache, err e) =
    failing (ended (record s { targets = record_failure s.targets target env.now; cache = cache }))
      (http_502_direct ∷ []) (some target) (dial_error e)
send_request env s target request (cache, ok stream) =
    if not env.request_written
    then failing (record s { cache = drop_connection cache (reusable_new stream target) env.now })
        [] (some target) request_failed
    else record {
      state = ended (use_connection env target stream (record s { cache = cache }));
      replies = [];
      dialled = some target;
      requested = some request;
      result = ok tt;
    }

-- The part under `if let Some(request_data) = http_direct_request`.
unfoldable pub handle_request : Surroundings → Shared → Str → Str → Handled
unfolding send_request
handle_request env s target request =
    if is_blacklisted s.targets target env.now
    then failing (ended s) (http_503_direct ∷ []) none blacklisted
    else send_request env s target request (get_or_create s.cache target env.now env.alive env.dial)

unfoldable pub connect_direct :
    Surroundings → Shared → Str → ConnectionPool × Outcome DialError ℕ → Handled
unfolding use_connection
connect_direct env s target (cache, err e) =
    failing (record s { targets = record_failure s.targets target env.now; cache = cache }) []
      (some target) (dial_error e)
connect_direct env s target (cache, ok stream) = record {
  state = use_connection env target stream (record s { cache = cache });
  replies = [];
  dialled = some target;
  requested = none;
  result = ok tt;
}

unfoldable pub handle_direct_connection : Bool → Surroundings → Shared → Str → Handled
unfolding connect_direct
handle_direct_connection bypass_safety_check env s target =
    let connected =
      connect_direct env s target (get_or_create s.cache target env.now env.alive env.dial) in
    if bypass_safety_check then connected else elim (is_unsafe_direct_target env.resolve target) [
      | none ↦ failing s [] none panicked
      | some unsafe ↦ if unsafe then failing s [] none unsafe_target else connected
    ]

-- What follows the server's confirmation.
unfoldable pub after_confirmation :
    ForwarderConfig → Surroundings → Shared → Str → Confirmation → Handled
unfolding transfer
after_confirmation forwarder env s target accepted = record {
  state = ended (on_tracker (transfer env) s);
  replies = [];
  dialled = none;
  requested = some (forward_request target);
  result = ok tt;
}
after_confirmation forwarder env s target (rejected message) = record {
  state = ended (record s { targets = record_failure s.targets target env.now });
  replies = elim forwarder.proxy_type [
    | http_proxy ↦ http_502_rejected message ∷ []
    | socks5_proxy ↦ []
    | tcp ↦ []
    | http11 ↦ []
    | http2 ↦ []
    | ssh ↦ []
  ];
  dialled = none;
  requested = some (forward_request target);
  result = err (server_rejected message);
}
after_confirmation forwarder env s target no_confirmation = record {
  state = s;
  replies = [];
  dialled = none;
  requested = some (forward_request target);
  result = err server_silent;
}

-- From the request for a stream on; each `?` returns without `connection_ended`.
unfoldable pub forward_to_server : ForwarderConfig → Surroundings → Shared → Str → Handled
unfolding after_confirmation
forward_to_server forwarder env s target =
    if not env.stream_opened
    then failing s [] none no_stream
    else if not env.server_written
    then failing s [] none server_write_failed
    else after_confirmation forwarder env s target (read_confirmation env.server_reply)

-- The rule: without a router everything goes through the server.
unfoldable pub goes_direct : Surroundings → Option GeoIpRouter → Str → Bool
goes_direct env none target = false
goes_direct env (some router) target = should_direct_connect env.sys router target

abbrev pub with_end : Handled → Handled
with_end o = record o { state = ended o.state }

unfoldable pub handle_tunnel :
    ForwarderConfig → Option GeoIpRouter → Surroundings → Shared → Str → Handled
unfolding handle_direct_connection forward_to_server
handle_tunnel forwarder router env s target =
    if is_blacklisted s.targets target env.now
    then failing (ended s) (http_503_blacklisted ∷ []) none blacklisted
    else if goes_direct env router target
    then with_end (handle_direct_connection true env s target)
    else forward_to_server forwarder env s target

abbrev pub having_written : List Str → Handled → Handled
having_written replies o = record o { replies = replies ++ o.replies }

-- A request that cannot be read ends the connection, without `connection_ended`.
unfoldable pub handle_route :
    ForwarderConfig → Option GeoIpRouter → Surroundings → Shared → Parsed → Handled
unfolding handle_request handle_tunnel
handle_route forwarder router env s (replies, err e) = failing s replies none e
handle_route forwarder router env s (replies, ok (tunnel target)) =
    having_written replies (handle_tunnel forwarder router env s target)
handle_route forwarder router env s (replies, ok (direct_request target request)) =
    having_written replies (handle_request env s target request)

unfoldable pub handle_forwarder_connection :
    ForwarderConfig → Option GeoIpRouter → Surroundings → Shared → Handled
unfolding handle_route
handle_forwarder_connection forwarder router env s =
    handle_route forwarder router env (on_tracker connection_started s)
      (parse_route forwarder.proxy_type env)
