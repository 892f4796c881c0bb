-- ===== src/ClientSession/World.antt =====
-- `ClientWorld` of src/client/mod.rs: what a session does on the events of its control channel.
use tls_tunnel.Prelude.{
  ℕ, suc, Bool, true, false, not, Option, none, some, List, [], ◌∷◌, ◌++◌, Str, codes, contains,
  if◌then◌else◌, nat_eq, list_eq, Table, lookup, insert, with_port, retain, map,
}
use tls_tunnel.Config.Types.{
  ProxyConfig, VisitorConfig, ForwarderConfig, ClientFullConfig, should_reuse_connections,
  is_multiplexed,
}
use tls_tunnel.Pool.Address.{PoolConfig, Connect}
use tls_tunnel.Pool.Manager.{ConnectionPool}
use tls_tunnel.Pool.Manager
use tls_tunnel.Routing.Router.{System, GeoIpRouter, router_new}
use tls_tunnel.Client.Tracker.{
  ClientStatsTracker, ClientStatsManager, tracker_new, add_or_update_tracker, get_tracker,
}
use tls_tunnel.ClientSession.Channel.{
  ControlEvent, authentication_success, authentication_failed, config_accepted,
  config_partially_rejected, config_rejected, connection_closed, ClientControlChannel, Json,
  send_submit_config,
}

pub data ClientState : Type 0 where
  authenticating authenticated configuring_proxy running : ClientState

-- A forwarder's listener task: its configuration, the handle of its tracker, and its router.
pub record ForwarderTask : Type 0 where
  pub config : ForwarderConfig
  pub tracker : Option ℕ
  pub router : Option GeoIpRouter

-- The trackers stand in a store, of which the next free handle is counted.
pub record ClientWorld : Type 0 where
  pub config : ClientFullConfig
  pub state : ClientState
  pub proxy_pools : Option (Table ℕ ConnectionPool)
  pub trackers : Table ℕ ClientStatsTracker
  pub next_tracker : ℕ
  pub stats_manager : ClientStatsManager
  pub visitor_listeners : List VisitorConfig
  pub forwarder_listeners : List ForwarderTask
  pub shut_down : Bool

-- What the outside answers while a session is set up: the settings of the pools from the environment, the time,
-- the outcomes of the warm-ups' connects, and the router's system.
pub record Setup : Type 0 where
  pub pool_config : PoolConfig
  pub now : ℕ
  pub connects : Str → ℕ → Connect
  pub sys : System

unfoldable pub pool_config_of : PoolConfig → ProxyConfig → PoolConfig
pool_config_of base proxy =
    let reusing = record base { reuse_connections = should_reuse_connections proxy.proxy_type } in
    if is_multiplexed proxy.proxy_type
    then record reusing { max_size = 1; min_idle = 1 }
    else reusing

-- `collect` into a map by the published port.
unfoldable pub create_pools :
    PoolConfig → List ProxyConfig → Table ℕ ConnectionPool → Table ℕ ConnectionPool
unfolding pool_config_of
create_pools base [] pools = pools
create_pools base (proxy ∷ proxies) pools =
    create_pools base proxies
      (insert proxy.publish_port (Manager.new (pool_config_of base proxy)) pools)

abbrev pub local_addr : ProxyConfig → Str
local_addr proxy = with_port (codes "127.0.0.1") proxy.local_port

unfoldable pub warm_up : Setup → List ProxyConfig → Table ℕ ConnectionPool → Table ℕ ConnectionPool
warm_up setup [] pools = pools
warm_up setup (proxy ∷ proxies) pools =
    warm_up setup proxies (elim (lookup proxy.publish_port pools) [
      | none ↦ pools
      | some pool ↦
          insert proxy.publish_port
            (Manager.warmup pool (local_addr proxy) setup.now (setup.connects (local_addr proxy)))
            pools
    ])

-- A new tracker under the name of its proxy or forwarder.
unfoldable pub track : ClientStatsTracker → ClientWorld → ClientWorld
track t w = record w {
  trackers = insert w.next_tracker t w.trackers;
  next_tracker = suc w.next_tracker;
  stats_manager = add_or_update_tracker w.stats_manager (t.name, w.next_tracker);
}

unfoldable pub track_proxies : ℕ → List ProxyConfig → ClientWorld → ClientWorld
unfolding track tracker_new
track_proxies now [] w = w
track_proxies now (proxy ∷ proxies) w = track_proxies now proxies (
    track
      (tracker_new proxy.name proxy.proxy_type (codes "127.0.0.1") proxy.local_port
        w.config.client.server_addr proxy.publish_port now)
      w)

unfoldable pub initialize_resources : Setup → ClientWorld → ClientWorld
unfolding create_pools warm_up track_proxies
initialize_resources setup w =
    let proxies = w.config.proxies in
    track_proxies setup.now proxies (record w {
      proxy_pools = some (warm_up setup proxies (create_pools setup.pool_config proxies []));
    })

unfoldable pub visitor_key : VisitorConfig → Str
visitor_key visitor = with_port visitor.name visitor.publish_port

-- The visitors whose proxy was not rejected.
unfoldable pub startable : List Str → List VisitorConfig → List VisitorConfig
startable rejected visitors = retain (λ v. not (contains (visitor_key v) rejected)) visitors

unfoldable pub track_forwarders : ℕ → List ForwarderConfig → ClientWorld → ClientWorld
unfolding track tracker_new
track_forwarders now [] w = w
track_forwarders now (f ∷ forwarders) w = track_forwarders now forwarders (
    track
      (tracker_new f.name f.proxy_type f.bind_addr f.bind_port w.config.client.server_addr 0 now) w)

unfoldable pub forwarder_task : System → ClientStatsManager → ForwarderConfig → ForwarderTask
forwarder_task sys manager f = record {
  config = f;
  tracker = get_tracker manager f.name;
  router = elim f.routing [ none ↦ none | some routing ↦ some (router_new sys routing) ];
}

unfoldable pub start_listeners : Setup → List Str → ClientWorld → ClientWorld
unfolding startable track_forwarders forwarder_task
start_listeners setup rejected w =
    let tracked = track_forwarders setup.now w.config.forwarders w in
    record tracked {
      visitor_listeners = w.visitor_listeners ++ startable rejected w.config.visitors;
      forwarder_listeners =
          w.forwarder_listeners
          ++ map (forwarder_task setup.sys tracked.stats_manager) w.config.forwarders;
    }

-- Whether the session goes on, ends, or fails.
pub data Verdict : Type 0 where
  goes_on ends fails : Verdict

abbrev pub Handled : Type 0
Handled = ClientWorld × ClientControlChannel × Verdict

module _ {Value : Type 0} (json : Json Value) where
  abbrev pub after_submit : ClientWorld → ClientControlChannel × Bool → Handled
  after_submit w (c, true) = (w, c, goes_on)
  after_submit w (c, false) = (w, c, fails)

  unfoldable pub submit_config : Bool → ClientWorld → ClientControlChannel → Handled
  unfolding send_submit_config
  submit_config written w c =
      after_submit (record w { state = configuring_proxy }) (send_submit_config json written c)

  -- `written` says whether the submission can be written.
  unfoldable pub handle_control_event :
      Setup → Bool → ClientWorld → ClientControlChannel → ControlEvent → Handled
  unfolding submit_config initialize_resources
  handle_control_event setup written w c (authentication_success client_id) =
      submit_config written (initialize_resources setup (record w { state = authenticated })) c
  handle_control_event setup written w c (authentication_failed reason) = (w, c, fails)
  handle_control_event setup written w c config_accepted =
      (start_listeners setup [] (record w { state = running }), c, goes_on)
  handle_control_event setup written w c (config_partially_rejected rejected) =
      (start_listeners setup rejected (record w { state = running }), c, goes_on)
  handle_control_event setup written w c (config_rejected rejected) = (w, c, fails)
  handle_control_event setup written w c connection_closed =
      (record w { shut_down = true }, c, ends)
