-- ===== src/Client/Reaching.antt =====
-- From a published port of the server to the local service of the client: `handle_proxy_connection` of
-- src/server/connection.rs with `handle_stream` of src/client/stream.rs.
use tls_tunnel.Prelude.{
  ◌<◌, ◌≡◌, ◌≢◌, ap, ◌∙◌, true, if◌then◌else◌, List, [], ◌∷◌, ◌++◌, Str, All, ok, nat_eq,
}
use tls_tunnel.Config.Types.{ProxyConfig}
use tls_tunnel.Pool.Address.{PoolConfig}
use tls_tunnel.Pool.Manager
use tls_tunnel.Stats.Tracker.{Tracker}
use tls_tunnel.Server.Connection.{
  Answers, IsWord, reaches_client, handle_proxy_connection, handle_proxy_connection-HandledWell,
}
use tls_tunnel.Visitor.Wire.{u16_bytes}
use tls_tunnel.Client.Opening.{open_stream, last_on, open_stream-first}
use tls_tunnel.ClientSession.World.{pool_config_of, create_pools}

-- A connection to the published port of `q` that gets through to the client is served by the first proxy of the
-- client's configuration with that port, on whatever address, and with the pool of the last one: the header
-- has the port only. When `q` alone has the port, both are `q`.
pub handle_proxy_connection-open_stream :
    (config : PoolConfig) (before : List ProxyConfig) (p : ProxyConfig) (after : List ProxyConfig)
    (q : ProxyConfig) (t : Tracker) (a : Answers) (rest : Str)
    → IsWord t
    → All (λ r. r.publish_port ≢ q.publish_port) before
    → p.publish_port ≡ q.publish_port
    → q.publish_port < 65536
    → reaches_client a ≡ true
    → open_stream
        (before ++ p ∷ after)
        (create_pools config (before ++ p ∷ after) [])
        ((handle_proxy_connection t q.proxy_type q.publish_port a).header ++ rest)
      ≡ ok (p, Manager.new (pool_config_of config (last_on q.publish_port p after)), rest)
handle_proxy_connection-open_stream config before p after q t a rest w others e small reaches =
    let header = (handle_proxy_connection-HandledWell t w q.proxy_type q.publish_port a).1 in
    ap
      (λ h.
        open_stream (before ++ p ∷ after) (create_pools config (before ++ p ∷ after) [])
          (h ++ rest))
      (header ∙ ap (λ b. if b then u16_bytes q.publish_port else []) reaches)
    ∙ open_stream-first config q.publish_port before p after rest others e small
