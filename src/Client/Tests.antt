-- ===== src/Client/Tests.antt =====
-- Rounds of src/client/stream.rs with one local service.
use tls_tunnel.Prelude.{
  ◌-◌, ◌≡◌, refl, true, none, some, if◌then◌else◌, ◌==◌, [], ◌∷◌, ◌++◌, ok, Str, codes, arith,
  lookup, nat_eq, list_eq,
}
use tls_tunnel.Config.Types.{http11, http2, ProxyConfig, should_reuse_connections}
use tls_tunnel.Pool.Address.{default_config, connected, exhausted, would_block, get_connection}
use tls_tunnel.Pool.Manager.{ConnectionPool, get, new}
use tls_tunnel.Stats.Tracker.{Tracker, tracker_new}
use tls_tunnel.Server.Connection.{Answers, handle_proxy_connection}
use tls_tunnel.Client.Opening.{open_stream}
use tls_tunnel.ClientSession.World.{pool_config_of, create_pools}
use tls_tunnel.Client.Reaching.{handle_proxy_connection-open_stream}
use tls_tunnel.Client.Stream.{Round, round}
use tls_tunnel.Client.Accounting.{in_use, round_unpooled}

abbrev local : Str
local = codes "127.0.0.1:80"

abbrev good : Round
good = record {
  now = 5;
  pool_answer = connected 9;
  answers = λ n. some 4;
  copied = true;
  probe = would_block;
  later = 6;
}

-- The service answers the second attempt only.
abbrev late : Round
late = record good { answers = λ n. if n == 1 then none else some 4 }

-- A pool with as many connections in use as it may have.
abbrev busy : ConnectionPool
busy = record {
  pools =
      (
        local,
        record {
          address = local;
          config = default_config;
          idle_connections = [];
          active_count = default_config.max_size;
        },
      )
      ∷ [];
  config = default_config;
}

round_unpooled_example : in_use (round busy local http11 3 late).0 local ≡ in_use busy local - 1
unfolding should_reuse_connections get get_connection lookup
round_unpooled_example =
    round_unpooled busy local http11 3 late exhausted 1 4 refl refl (omega arith) refl refl

-- Two proxies on one port of two addresses, as a valid configuration may have.
abbrev shop : ProxyConfig
shop = record {
  name = codes "shop";
  proxy_type = http11;
  publish_addr = codes "10.0.0.1";
  publish_port = 8080;
  local_port = 3000;
}

abbrev admin : ProxyConfig
admin = record {
  name = codes "admin";
  proxy_type = http2;
  publish_addr = codes "10.0.0.2";
  publish_port = 8080;
  local_port = 4000;
}

abbrev through : Answers
through = record {
  requested = true;
  stream = true;
  header_sent = true;
  inbound_to_stream = ok 0;
  stream_to_inbound = ok 0;
}

abbrev counted : Tracker
counted = tracker_new (codes "admin") (codes "10.0.0.2") 8080 4000 7

-- What comes in for the second is served by the first.
handle_proxy_connection-open_stream_example :
    open_stream
      (shop ∷ admin ∷ [])
      (create_pools default_config (shop ∷ admin ∷ []) [])
      ((handle_proxy_connection counted http2 8080 through).header ++ b'G' ∷ [])
    ≡ ok (shop, new (pool_config_of default_config admin), b'G' ∷ [])
unfolding tracker_new
handle_proxy_connection-open_stream_example =
    handle_proxy_connection-open_stream default_config [] shop (admin ∷ []) admin counted through
      (b'G' ∷ []) (record { active = omega arith; received = omega arith; sent = omega arith }) tt
      refl (omega arith) refl
