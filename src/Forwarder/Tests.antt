-- ===== src/Forwarder/Tests.antt =====
-- Runs of the forwarder's parts, and instances of its theorems.
use tls_tunnel.Prelude.{
  ℕ, ◌≡◌, ◌≤◌, ◌<◌, ◌+◌, ◌↔◌, ◌⊎◌, refl, true, false, none, some, List, [], ◌∷◌, ◌++◌, Str, codes,
  ok, is_ok, arith, nat_eq, list_eq, contains, with_port, lookup, insert,
}
use tls_tunnel.Config.Types.{proxy, ForwarderConfig, ProxyType, socks5_proxy, http_proxy}
use tls_tunnel.Routing.Router.{System, GeoIpRouter}
use tls_tunnel.Visitor.Wire.{next, utf8_from}
use tls_tunnel.Client.Tracker.{tracker_new}
use tls_tunnel.Forwarder.Targets.{
  failed_target_timeout, failure, cleanup, perform, perform_all, is_blacklisted, count_failure,
  record_failure, cleanup_expired_targets, Call,
}
use tls_tunnel.Forwarder.Blacklist.{is_blacklisted-FailedAt, FailedAt}
use tls_tunnel.Forwarder.Exclusive.{Event, acquire, finish, start, run, places}
use tls_tunnel.Forwarder.Owned.{AreOwned, run-users}
use tls_tunnel.Forwarder.Socks.{parse_socks5, Socks5Auth, handle_socks5_auth, show_v6}
use tls_tunnel.Forwarder.SocksRequest.{
  Address, domain, ipv6, Names, connect_request, parse_socks5-connect_request,
}
use tls_tunnel.Forwarder.SocksAuth.{greeting, credentials, handle_socks5_auth_iff}
use tls_tunnel.Forwarder.Http.{
  parse_http_request, parse_head, find_end, read_head, parse_lines, add_headers, add_header,
  split_colon, handle_http_direct, direct_target, modified_request, direct_path, header_lines,
}
use tls_tunnel.Forwarder.Copy.{arrives}
use tls_tunnel.Forwarder.Handling.{
  Surroundings, Shared, parse_route, http_route, direct_request, handle_forwarder_connection,
}
use tls_tunnel.Forwarder.Balance.{Counts, handle_forwarder_connection-Counts}
use tls_tunnel.Forwarder.Rules.{Obeys, handle_forwarder_connection-Obeys}
use tls_tunnel.Forwarder.HttpReading.{parse_http_request-pieces}
use tls_tunnel.Forwarder.Text.{
  split_whitespace, words_from, lines, lines_from, trim, trim_start_from, trim_end_from,
  space_width, from_utf8_lossy, lossy_from,
}

two_words :
    split_whitespace (codes "  GET /x HTTP/1.1 ") ≡ codes "GET" ∷ codes "/x" ∷ codes "HTTP/1.1" ∷ []
unfolding words_from space_width
two_words = refl

two_lines : lines (codes "a\r\nb\n\nc\r") ≡ codes "a" ∷ codes "b" ∷ [] ∷ codes "c\r" ∷ []
unfolding lines_from
two_lines = refl

trimmed : trim (codes " a b\t ") ≡ codes "a b"
unfolding trim_start_from trim_end_from space_width
trimmed = refl

replaced :
    from_utf8_lossy (97 ∷ 0xE2 ∷ 0x82 ∷ 98 ∷ 0xFF ∷ 0xC3 ∷ 0xA9 ∷ [])
    ≡ 97 ∷ 0xEF ∷ 0xBF ∷ 0xBD ∷ 98 ∷ 0xEF ∷ 0xBF ∷ 0xBD ∷ 0xC3 ∷ 0xA9 ∷ []
unfolding lossy_from next
replaced = refl

shown : show_v6 (0x20 ∷ 0x01 ∷ 0xd ∷ 0xb8 ∷ []) ≡ codes "2001:0db8"
unfolding show_v6
shown = refl

abbrev history : List Call
history = failure (codes "a:1") 5 ∷ cleanup 7 ∷ []

is_blacklisted-FailedAt_example :
    (past : ℕ) × FailedAt (codes "a:1") history past × (9 < past + failed_target_timeout)
unfolding is_blacklisted perform_all perform record_failure count_failure cleanup_expired_targets
    lookup insert
is_blacklisted-FailedAt_example = is_blacklisted-FailedAt (codes "a:1") history 9 refl

abbrev taken_twice : List Event
taken_twice =
    acquire (codes "a:1") 1 (λ s. true) (record { connected = some 7; nodelay = true })
    ∷ finish 0 false 2
    ∷ acquire (codes "a:1") 3 (λ s. true) (record { connected = none; nodelay = true })
    ∷ []

run-users_example :
    AreOwned (λ s. codes "a:1") 100 (run (start 100 300) taken_twice)
    × (places 7 (run (start 100 300) taken_twice) ≤ 1)
run-users_example =
    run-users (λ s. codes "a:1") 100 300 7 taken_twice (refl, (tt, (tt, tt)))
      ((λ s e. refl), (tt, ((λ s e. absurd (cc e)), tt)))

-- ::1, in full.
abbrev loopback : Address
loopback = ipv6 (0 ∷ 0 ∷ 0 ∷ 0 ∷ 0 ∷ 0 ∷ 0 ∷ 0 ∷ 0 ∷ 0 ∷ 0 ∷ 0 ∷ 0 ∷ 0 ∷ 0 ∷ 1 ∷ [])

parse_socks5-connect_request_example :
    (host : Str) × Names loopback host
    × (parse_socks5 (record {
      input = connect_request (0 ∷ []) loopback 5432 ++ codes "hi";
      sent = [];
      writable = 2;
    })
        ≡ (
          ok (with_port host 5432),
          record {
            input = codes "hi";
            sent = 5 ∷ 0 ∷ 5 ∷ 0 ∷ 0 ∷ 1 ∷ 0 ∷ 0 ∷ 0 ∷ 0 ∷ 0 ∷ 0 ∷ [];
            writable = 0;
          },
        ))
parse_socks5-connect_request_example =
    parse_socks5-connect_request (0 ∷ []) (codes "hi") [] loopback 5432 0 (omega arith)
      (omega arith) (refl, omega arith) (omega arith)

abbrev secret : Socks5Auth
secret = record { username = codes "u"; password = codes "p" }

handle_socks5_auth_iff_example :
    (is_ok
        (handle_socks5_auth
          (some secret)
          (record { input = greeting (0 ∷ []) (credentials [] [] []); sent = []; writable = 2 })).0
      ≡ true)
    ↔ (((contains {K = ℕ} 2 (0 ∷ []) ≡ true)
          × (◌≡◌ {A = Str} [] (codes "u"))
          × (◌≡◌ {A = Str} [] (codes "p")))
        ⊎ ((contains {K = ℕ} 2 (0 ∷ []) ≡ false) × (contains {K = ℕ} 0 (0 ∷ []) ≡ true)))
unfolding utf8_from next
handle_socks5_auth_iff_example = handle_socks5_auth_iff secret (0 ∷ []) [] [] [] [] 0 refl refl

abbrev head : Str
head = codes "GET / HTTP/1.1\r\n\r\n"

parse_http_request-pieces_example :
    parse_http_request (λ s. s) (codes "GET / HT" ∷ (codes "TP/1.1\r\n\r\n" ++ codes "body") ∷ [])
    ≡ (parse_head (λ s. s) head, [] ∷ [])
unfolding find_end
parse_http_request-pieces_example =
    parse_http_request-pieces (λ s. s) (codes "GET / HT" ∷ []) (codes "TP/1.1\r\n\r\n")
      (codes "body") [] (omega arith, tt) (omega arith) (omega arith) refl

abbrev no_system : System
no_system = record {
  open_readfile = λ s. none;
  parse_network = λ s. none;
  parse_ip = λ s. none;
  resolve = λ s. none;
}

-- A client that asks for db:5432 by SOCKS5 and for a page by HTTP, a tunnel that accepts, and a target that
-- refuses.
abbrev surroundings : Surroundings
surroundings = record {
  to_lowercase = λ s. s;
  parse_url = λ s. none;
  walk = λ headers. headers;
  sys = no_system;
  resolve = λ s. none;
  http_input = codes "GET / HTTP/1.1\r\nhost: h:80\r\n\r\n" ∷ [];
  socks_input = record {
    input = connect_request (0 ∷ []) (domain (codes "db")) 5432;
    sent = [];
    writable = 2;
  };
  reply_written = true;
  now = 9;
  alive = λ s. true;
  dial = record { connected = none; nodelay = true };
  request_written = true;
  stream_opened = true;
  server_written = true;
  server_reply = 1 ∷ [];
  upward = arrives (codes "q") true ∷ arrives [] true ∷ [];
  downward = arrives (codes "answer") true ∷ arrives [] true ∷ [];
}

abbrev forwarder : ProxyType → ForwarderConfig
forwarder t = record {
  name = codes "f";
  proxy_type = t;
  bind_addr = codes "::";
  bind_port = 1;
  routing = none;
}

abbrev shared : Shared
shared = record {
  tracker = some (tracker_new (codes "f") socks5_proxy (codes "::") 1 (codes "s") 0 3);
  targets = [];
  cache = record { pools = []; max_pool_size = 100; max_idle_time = 300 };
}

abbrev router : GeoIpRouter
router = record {
  reader = none;
  config = record {
    geoip_db = none;
    direct_countries = [];
    proxy_countries = [];
    direct_ips = [];
    proxy_ips = [];
    direct_domains = [];
    proxy_domains = [];
    default_strategy = proxy;
  };
  direct_networks = [];
  proxy_networks = [];
}

handle_forwarder_connection-Counts_example :
    Counts 0 (handle_forwarder_connection (forwarder socks5_proxy) none surroundings shared)
unfolding tracker_new
handle_forwarder_connection-Counts_example =
    handle_forwarder_connection-Counts (forwarder socks5_proxy) none surroundings shared 0
      (omega arith) refl

handle_forwarder_connection-Obeys_example :
    Obeys
      (some router)
      surroundings
      shared
      (parse_route socks5_proxy surroundings).1
      (handle_forwarder_connection (forwarder socks5_proxy) (some router) surroundings shared)
handle_forwarder_connection-Obeys_example =
    handle_forwarder_connection-Obeys (forwarder socks5_proxy) (some router) surroundings shared

page :
    (parse_route http_proxy surroundings).1
    ≡ ok (
        direct_request
          (codes "h:80")
          (codes "GET / HTTP/1.1\r\nhost: h:80\r\nConnection: close\r\n\r\n"))
unfolding parse_route http_route read_head find_end parse_head parse_lines add_headers add_header
    split_colon lossy_from next lines_from words_from space_width trim_start_from trim_end_from
    insert lookup handle_http_direct direct_target modified_request direct_path header_lines
page = refl
