-- ===== src/Client/Opening.antt =====
-- How `handle_stream` of src/client/stream.rs finds the proxy of a stream and its pool.
use tls_tunnel.Prelude.{
  ℕ, ◌<◌, ◌≡◌, ◌≢◌, refl, ap, some, List, [], ◌∷◌, ◌++◌, Str, All, Outcome, ok, ◌>>=◌, ok_or,
  lookup, insert, lookup-insert, if_cases, ◌∙◌, Table, if◌then◌else◌, ◌==◌, nat_eq, arith,
}
use tls_tunnel.Config.Types.{ProxyConfig}
use tls_tunnel.Pool.Address.{PoolConfig}
use tls_tunnel.Pool.Manager.{ConnectionPool}
use tls_tunnel.Pool.Manager
use tls_tunnel.ClientSession.World.{pool_config_of, create_pools}
use tls_tunnel.ClientSession.Loop.{find_proxy}
use tls_tunnel.Visitor.Wire.{read_u16, u16_bytes, read_u16-u16_bytes}

pub data OpenError : Type 0 where
  no_header : OpenError
  no_proxy no_pool : (publish_port : ℕ) → OpenError

-- The proxy and its pool, and what is behind the header.
unfoldable pub open_stream :
    List ProxyConfig
    → Table ℕ ConnectionPool
    → Str
    → Outcome OpenError (ProxyConfig × ConnectionPool × Str)
unfolding find_proxy
open_stream proxies pools stream = do
  (publish_port, rest) ← ok_or (read_u16 stream) no_header
  proxy ← ok_or (find_proxy publish_port proxies) (no_proxy publish_port)
  pool ← ok_or (lookup publish_port pools) (no_pool publish_port)
  ok (proxy, pool, rest)

-- The last of the proxies on a port.
abbrev pub last_on : ℕ → ProxyConfig → List ProxyConfig → ProxyConfig
last_on publish_port p [] = p
last_on publish_port p (q ∷ qs) =
    last_on publish_port (if q.publish_port == publish_port then q else p) qs

module _ (config : PoolConfig) (publish_port : ℕ) where
  create_pools-append :
      (ps qs : List ProxyConfig) (pools : Table ℕ ConnectionPool)
      → create_pools config (ps ++ qs) pools ≡ create_pools config qs (create_pools config ps pools)
  unfolding create_pools
  create_pools-append [] qs pools = refl
  create_pools-append (p ∷ ps) qs pools =
      create_pools-append ps qs
        (insert p.publish_port (Manager.new (pool_config_of config p)) pools)

  lookup-create_pools_last :
      (p : ProxyConfig) (ps : List ProxyConfig) (pools : Table ℕ ConnectionPool)
      → lookup publish_port pools ≡ some (Manager.new (pool_config_of config p))
      → lookup publish_port (create_pools config ps pools)
        ≡ some (Manager.new (pool_config_of config (last_on publish_port p ps)))
  unfolding create_pools
  lookup-create_pools_last p [] pools h = h
  lookup-create_pools_last p (q ∷ ps) pools h =
      lookup-create_pools_last (if q.publish_port == publish_port then q else p) ps
        (insert q.publish_port (Manager.new (pool_config_of config q)) pools)
        (lookup-insert q.publish_port publish_port (Manager.new (pool_config_of config q)) pools
          ∙ if_cases
              (λ r.
                (if q.publish_port == publish_port
                  then some (Manager.new (pool_config_of config q))
                  else lookup publish_port pools)
                ≡ some (Manager.new (pool_config_of config r)))
              (q.publish_port == publish_port) (λ same. rw same) (λ other. rw other h))

  find_proxy-first :
      (before : List ProxyConfig) (p : ProxyConfig) (after : List ProxyConfig)
      → All (λ q. q.publish_port ≢ publish_port) before
      → p.publish_port ≡ publish_port
      → find_proxy publish_port (before ++ p ∷ after) ≡ some p
  unfolding find_proxy
  find_proxy-first [] p after others e = ground (arith, e)
  find_proxy-first (q ∷ before) p after others e =
      ground (arith, others.0, find_proxy-first before p after others.1 e)

  lookup-create_pools_first :
      (before : List ProxyConfig) (p : ProxyConfig) (after : List ProxyConfig)
      → p.publish_port ≡ publish_port
      → lookup publish_port (create_pools config (before ++ p ∷ after) [])
        ≡ some (Manager.new (pool_config_of config (last_on publish_port p after)))
  unfolding create_pools
  lookup-create_pools_first before p after e =
      let made = create_pools config before [] in
      let pool = Manager.new (pool_config_of config p) in
      ap (lookup publish_port) (create_pools-append before (p ∷ after) [])
      ∙ lookup-create_pools_last p after (insert p.publish_port pool made)
          (ground (arith, e, lookup-insert p.publish_port publish_port pool made))

  pub open_stream-first :
      (before : List ProxyConfig) (p : ProxyConfig) (after : List ProxyConfig) (rest : Str)
      → All (λ q. q.publish_port ≢ publish_port) before
      → p.publish_port ≡ publish_port
      → publish_port < 65536
      → open_stream
          (before ++ p ∷ after)
          (create_pools config (before ++ p ∷ after) [])
          (u16_bytes publish_port ++ rest)
        ≡ ok (p, Manager.new (pool_config_of config (last_on publish_port p after)), rest)
  unfolding open_stream
  open_stream-first before p after rest others e small = rw (
    read_u16-u16_bytes publish_port rest small,
    find_proxy-first before p after others e,
    lookup-create_pools_first before p after e,
  )
