-- ===== src/Client/Stream.antt =====
-- `handle_stream` of src/client/stream.rs behind the search of the proxy and its pool: the loop that
-- connects to the local service, copies, and tries once more.
use tls_tunnel.Prelude.{ℕ, Bool, ◌&&◌, Option, if◌then◌else◌, Str}
use tls_tunnel.Config.Types.{ProxyType, should_reuse_connections}
use tls_tunnel.Pool.Address.{Connect, Probe}
use tls_tunnel.Pool.Manager.{ConnectionPool}
use tls_tunnel.Pool.Manager
use tls_tunnel.Client.Local.{LocalConn, Connected, connected_to, failed, panics, connect_local}

-- What the outside answers in one round: the pool's connect, the direct attempts, whether the copying ends
-- well, and the probe of a connection that is given back, with the times.
pub record Round : Type 0 where
  pub now : ℕ
  pub pool_answer : Connect
  pub answers : ℕ → Option ℕ
  pub copied : Bool
  pub probe : Probe
  pub later : ℕ

pub data RoundResult : Type 0 where
  finished broken no_local panicked : RoundResult

-- What becomes of the connection when the copying is over.
unfoldable pub settle : ConnectionPool → Str → ProxyType → Round → LocalConn → ConnectionPool
settle pool local_addr proxy_type r conn =
    if r.copied
    then (if conn.pooled && should_reuse_connections proxy_type
        then Manager.return_connection pool local_addr conn.stream r.probe r.later
        else Manager.discard_connection pool local_addr conn.stream)
    else (if conn.pooled then Manager.discard_connection pool local_addr conn.stream else pool)

unfoldable pub after_connect :
    Str → ProxyType → Round → ConnectionPool × Connected → ConnectionPool × RoundResult
unfolding settle
after_connect local_addr proxy_type r (pool, connected_to conn) =
    (settle pool local_addr proxy_type r conn, if r.copied then finished else broken)
after_connect local_addr proxy_type r (pool, failed) = (pool, no_local)
after_connect local_addr proxy_type r (pool, panics) = (pool, panicked)

unfoldable pub round : ConnectionPool → Str → ProxyType → ℕ → Round → ConnectionPool × RoundResult
unfolding after_connect connect_local
round pool local_addr proxy_type max_retries r =
    after_connect local_addr proxy_type r
      (connect_local pool local_addr proxy_type r.now r.pool_answer max_retries r.answers)

-- One more round if the first breaks.
unfoldable pub rounds :
    ConnectionPool → Str → ProxyType → ℕ → Round → Round → ConnectionPool × RoundResult
unfolding round
rounds pool local_addr proxy_type max_retries r r' =
    let (pool', result) = round pool local_addr proxy_type max_retries r in
    let again = round pool' local_addr proxy_type max_retries r' in
    elim result [
      | broken ↦ again
      | finished ↦ (pool', finished)
      | no_local ↦ (pool', no_local)
      | panicked ↦ (pool', panicked)
    ]
