-- ===== src/Server/Tests.antt =====
-- The sessions of src/server/mod.rs on small inputs.
use tls_tunnel.Prelude.{
  ℕ, ◌≡◌, refl, Bool, true, false, none, some, List, [], ◌∷◌, map, codes, is_blank, nat_eq, list_eq,
  pair_eq, lookup, insert, remove, arith, Outcome, ok, err, if◌then◌else◌, ltb,
}
use mathlib.Core.Option
use tls_tunnel.Stats.Tracker.{tracker_new}
use tls_tunnel.Server.Binding.{
  BindError, addr_in_use, permission_denied, start_proxy_listener_with_notify, Binds,
  start_proxy_listener_with_notify-Binds,
}
use tls_tunnel.Server.Connection.{
  Answers, HandledWell, handle_proxy_connection, handle_proxy_connection-HandledWell,
}
use tls_tunnel.Config.Types.{tcp, ssh, ProxyConfig, VisitorConfig, tls, ServerConfig}
use tls_tunnel.Stats.Manager.{stats_new}
use tls_tunnel.Server.World.{Shared, world_new, cleanup, config_accepted}
use tls_tunnel.Server.Submission.{undisturbed, taken, unresolved, conclude, submit}
use tls_tunnel.Server.Session.{
  Event, authenticate_request, submit_config_request, inbound_stream, control_stream_closed,
  heartbeat, begin, run, on_event,
}
use tls_tunnel.Server.Ownership.{owned_by}
use tls_tunnel.Server.Sharing.{Accounted}
use tls_tunnel.Server.Interleaving.{run_among, run_among-Accounted}
use tls_tunnel.Server.Isolation.{SessionKeeps, on_event-KeepsOthers}
use tls_tunnel.Server.Honesty.{IsHonest, submit-IsHonest}
use tls_tunnel.Server.Listeners.{StartsAll, conclude-StartsAll}
use tls_tunnel.Server.Access.{Untouched, without_key-Untouched}

abbrev web : ProxyConfig
web = record {
  name = codes "web";
  proxy_type = tcp;
  publish_addr = codes "0.0.0.0";
  publish_port = 8080;
  local_port = 80;
}

abbrev shell : ProxyConfig
shell = record web { name = codes "shell"; proxy_type = ssh; publish_port = 2222; local_port = 22 }

abbrev far_web : VisitorConfig
far_web = record {
  name = codes "web";
  proxy_type = tcp;
  bind_addr = codes "127.0.0.1";
  bind_port = 9000;
  publish_port = 8080;
}

abbrev server : ServerConfig
server = record {
  bind_addr = codes "0.0.0.0";
  bind_port = 443;
  transport = tls;
  behind_proxy = false;
  cert_path = some (codes "cert");
  key_path = some (codes "key");
  auth_key = codes "key";
  stats_port = none;
  stats_addr = none;
  allow_forward = true;
  rate_limit = none;
  size_limits = none;
}

abbrev fresh : Shared
fresh = record { config = server; stats_manager = stats_new; proxy_registry = [] }

abbrev always : ℕ → Bool
always n = true

-- A session that publishes and ends.
abbrev events : List Event
events =
    authenticate_request 1 (codes "key") 7
    ∷ submit_config_request 2 0 undisturbed (web ∷ shell ∷ []) (far_web ∷ [])
    ∷ inbound_stream 5
    ∷ control_stream_closed
    ∷ []

-- A client with another key.
abbrev intruder : List Event
intruder = authenticate_request 1 (codes "kez") 7 ∷ inbound_stream 5 ∷ heartbeat ∷ []

without_key-Untouched_example : Untouched fresh (run always (begin 3 fresh) intruder)
without_key-Untouched_example =
    without_key-Untouched always 3 fresh intruder ((λ h. ground arith), ((λ h. h), ((λ h. h), tt)))

run_among-Accounted_example :
    Accounted (run_among always (begin 3 fresh) (map (λ e. ((λ r. r), e)) events))
unfolding lookup owned_by
run_among-Accounted_example =
    run_among-Accounted always 3 fresh (map (λ e. ((λ r. r), e)) events) (λ key. refl)
      (
        ((λ r key. refl), tt),
        (
          ((λ r key. refl), ((λ r key. refl), (λ r key. refl))),
          (((λ r key. refl), tt), (((λ r key. refl), tt), tt)),
        ),
      )

on_event-KeepsOthers_example :
    SessionKeeps
      (begin 3 fresh)
      (on_event always (begin 3 fresh) (submit_config_request 2 0 undisturbed (web ∷ []) []))
unfolding lookup begin world_new owned_by
on_event-KeepsOthers_example =
    on_event-KeepsOthers always (begin 3 fresh)
      (submit_config_request 2 0 undisturbed (web ∷ []) []) refl refl (λ key. refl)

submit-IsHonest_example :
    IsHonest always
      (world_new 3)
      fresh
      2
      0
      (web ∷ shell ∷ [])
      (far_web ∷ [])
      (submit always undisturbed (world_new 3) fresh 2 0 (web ∷ shell ∷ []) (far_web ∷ []))
submit-IsHonest_example =
    submit-IsHonest always (world_new 3) fresh 2 0 (web ∷ shell ∷ []) (far_web ∷ [])

conclude-StartsAll_example :
    StartsAll
      (world_new 3)
      (web ∷ shell ∷ [])
      (conclude always (world_new 3) fresh 2 0 (web ∷ shell ∷ []) (codes "web:8080" ∷ []))
conclude-StartsAll_example =
    conclude-StartsAll always (world_new 3) fresh 2 0 (web ∷ shell ∷ []) (codes "web:8080" ∷ [])

accepts_both :
    (submit always undisturbed (world_new 3) fresh 2 0 (web ∷ shell ∷ []) (far_web ∷ [])).world.sent
    ≡ config_accepted 2 ∷ []
unfolding submit world_new is_blank lookup insert taken unresolved
accepts_both = refl

registers_and_cleans_up : (run always (begin 3 fresh) events).shared.proxy_registry ≡ []
unfolding run begin world_new submit is_blank lookup insert remove taken unresolved cleanup
registers_and_cleans_up = refl

serves_stream : (run always (begin 3 fresh) events).served ≡ 5 ∷ []
unfolding run begin world_new submit is_blank lookup insert remove taken unresolved
serves_stream = refl

-- A port that is taken for three binds.
abbrev taken_thrice : ℕ → Outcome BindError (Unit {0})
taken_thrice n = if ltb n 3 then err addr_in_use else ok tt

binds_at_last :
    Option.map (λ b. b.sleeps) (start_proxy_listener_with_notify true taken_thrice)
    ≡ some (2 ∷ 4 ∷ 8 ∷ [])
unfolding start_proxy_listener_with_notify
binds_at_last = refl

never_binds :
    Option.map (λ b. b.sleeps) (start_proxy_listener_with_notify true (λ n. err permission_denied))
    ≡ some (2 ∷ 4 ∷ 8 ∷ 16 ∷ 32 ∷ 60 ∷ 60 ∷ 60 ∷ 60 ∷ 60 ∷ [])
unfolding start_proxy_listener_with_notify
never_binds = refl

start_proxy_listener_with_notify-Binds_example :
    Binds taken_thrice 10 0 2 (start_proxy_listener_with_notify true taken_thrice)
start_proxy_listener_with_notify-Binds_example = start_proxy_listener_with_notify-Binds taken_thrice

abbrev answers : Answers
answers = record {
  requested = true;
  stream = true;
  header_sent = true;
  inbound_to_stream = ok 70;
  stream_to_inbound = err tt;
}

handle_proxy_connection-HandledWell_example :
    HandledWell
      (tracker_new (codes "web") [] 8080 80 7)
      8080
      answers
      (handle_proxy_connection (tracker_new (codes "web") [] 8080 80 7) tcp 8080 answers)
unfolding tracker_new
handle_proxy_connection-HandledWell_example =
    handle_proxy_connection-HandledWell (tracker_new (codes "web") [] 8080 80 7)
      (record { active = omega arith; received = omega arith; sent = omega arith }) tcp 8080 answers
