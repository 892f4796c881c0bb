-- ===== src/ClientSession/Tests.antt =====
-- Instances of the theorems on the client's session.
use tls_tunnel.Prelude.{
  ℕ, ◌≡◌, ◌++◌, refl, true, false, none, some, List, [], ◌∷◌, Str, codes, arith, nat_eq, list_eq,
  lookup,
}
use tls_tunnel.Config.Types.{tls, tcp, ClientConfig, ClientFullConfig, VisitorConfig}
use tls_tunnel.Pool.Address.{default_config, refused}
use tls_tunnel.ClientSession.Channel.{
  Json, JsonRpcResponse, for_authentication, ClientControlChannel, time_out, timeout_event, answer,
}
use tls_tunnel.ClientSession.World.{running, Setup}
use tls_tunnel.ClientSession.Loop.{
  Session, Event, inbound_stream, yamux_closed, response_read, event_received, stream_request,
  heartbeat_tick, run_client_event_loop,
}
use tls_tunnel.ClientSession.Phases.{IsOrderly, IsStartedBut}
use tls_tunnel.ClientSession.Order.{Answered, run_client_event_loop-IsOrderly}
use tls_tunnel.ClientSession.Progress.{answers_between, comes_up}
use tls_tunnel.ClientSession.Deadline.{beats, expires, happen_all, time_out-raises}

-- JSON values are numbers here, and each is what is asked for.
abbrev json : Json ℕ
json = record {
  as_number = λ n. some (some n);
  response = λ body. none;
  request = λ body. none;
  authenticate_result = λ n. some (codes "c1");
  submit_config_result = λ n. some (codes "db:22" ∷ []);
  rejected_of = λ n. none;
  authenticate_message = λ n. [];
  submit_config_message = λ n. [];
  heartbeat_message = [];
}

abbrev client : ClientConfig
client = record {
  server_addr = codes "s";
  server_port = 443;
  server_path = codes "/";
  transport = tls;
  skip_verify = false;
  ca_cert_path = none;
  auth_key = codes "k";
  stats_port = none;
  stats_addr = none;
}

abbrev visitor : Str → ℕ → VisitorConfig
visitor name port = record {
  name = name;
  proxy_type = tcp;
  bind_addr = codes "127.0.0.1";
  bind_port = 9;
  publish_port = port;
}

abbrev config : ClientFullConfig
config = record {
  client = client;
  proxies = [];
  visitors = visitor (codes "db") 22 ∷ visitor (codes "web") 80 ∷ [];
  forwarders = [];
}

abbrev setup : Setup
setup = record {
  pool_config = default_config;
  now = 5;
  connects = λ s n. refused;
  sys = record {
    open_readfile = λ s. none;
    parse_network = λ s. none;
    parse_ip = λ s. none;
    resolve = λ s. none;
  };
}

abbrev response : ℕ → JsonRpcResponse ℕ
response n = record { result = some 0; error = none; id = n }

abbrev broken : List (Event ℕ)
broken =
    response_read (response 1) ∷ inbound_stream 4 22 ∷ event_received setup true ∷ yamux_closed ∷ []

run_client_event_loop-IsOrderly_example :
    IsOrderly config
      (Answered config json true broken)
      (run_client_event_loop json config true broken)
run_client_event_loop-IsOrderly_example = run_client_event_loop-IsOrderly config json true broken

abbrev session : Session
session = run_client_event_loop json config true (
    answers_between json (response 1) setup (response 2) setup true (heartbeat_tick true ∷ []) []
      (stream_request 7 true ∷ []) [])

comes_up_example :
    (session.world.state ≡ running)
    × (session.result ≡ none)
    × IsStartedBut config (codes "db:22" ∷ []) session.world
comes_up_example =
    comes_up json config (response 1) (response 2) 0 0 (codes "c1") (codes "db:22" ∷ []) setup setup
      true (heartbeat_tick true ∷ []) [] (stream_request 7 true ∷ []) []
      (record { numbered = refl; successful = refl }) refl
      (record { numbered = refl; successful = refl }) refl (tt, tt) tt (tt, tt) tt

abbrev waiting_channel : ClientControlChannel
waiting_channel = record {
  request_id = 2;
  pending_requests = (1, for_authentication) ∷ [];
  events = [];
  written = [];
}

time_out-raises_example :
    ((time_out (happen_all json waiting_channel (beats true ∷ expires 3 ∷ [])) 1).events
      ≡ (happen_all json waiting_channel (beats true ∷ expires 3 ∷ [])).events
        ++ timeout_event for_authentication ∷ [])
    × (answer json
          (time_out (happen_all json waiting_channel (beats true ∷ expires 3 ∷ [])) 1)
          1
          (response 1)
        ≡ time_out (happen_all json waiting_channel (beats true ∷ expires 3 ∷ [])) 1)
unfolding lookup
time_out-raises_example =
    time_out-raises json (beats true ∷ expires 3 ∷ []) 1 for_authentication waiting_channel
      (response 1) refl ((λ e. e), ((λ e. omega (arith, e)), tt))
