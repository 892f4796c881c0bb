-- ===== src/Pool/Tests.antt =====
-- Runs of src/connection_pool.rs on small pools, and its theorems at concrete inputs.
use tls_tunnel.Prelude.{
  ℕ, ◌+◌, ◌≡◌, refl, arith, [], ◌∷◌, Str, codes, ok, err, true, nat_eq, list_eq,
}
use tls_tunnel.Pool.Address.{
  PoolConfig, default_config, AddressPool, Connect, connected, would_block, exhausted,
  get_connection, warmup,
}
use tls_tunnel.Pool.Manager.{ConnectionPool}
use tls_tunnel.Pool.Bounds.{
  returns, step, IsBounded, step-IsBounded, warmup-IsBounded, warmup_overfills,
}
use tls_tunnel.Pool.Freshness.{Handed, get_connection-Handed}

abbrev web : Str
web = codes "127.0.0.1:8080"

abbrev ssh : Str
ssh = codes "127.0.0.1:22"

abbrev small : PoolConfig
small = record default_config { max_size = 2; reuse_connections = true }

-- Two sockets in use, none idle: the pool is full.
abbrev full : AddressPool
full = record { address = web; config = small; idle_connections = []; active_count = 2 }

abbrev idle_one : AddressPool
idle_one = record {
  address = web;
  config = small;
  idle_connections = record { stream = 7; created_at = 0; last_used = 100 } ∷ [];
  active_count = 1;
}

abbrev all_connect : ℕ → Connect
all_connect i = connected (i + 100)

full_is_exhausted : (get_connection full 5 (connected 9)).1 ≡ err exhausted
unfolding get_connection
full_is_exhausted = refl

reuses_idle : (get_connection idle_one 200 (connected 9)).1 ≡ ok 7
unfolding get_connection
reuses_idle = refl

replaces_expired : (get_connection idle_one 70_000 (connected 9)).1 ≡ ok 9
unfolding get_connection
replaces_expired = refl

full-IsBounded : IsBounded full
full-IsBounded = record { within = omega arith; fits = omega arith }

idle_one-IsBounded : IsBounded idle_one
idle_one-IsBounded = record { within = omega arith; fits = omega arith }

step-IsBounded_example : IsBounded (step full (returns 9 would_block 5))
step-IsBounded_example = step-IsBounded full (returns 9 would_block 5) full-IsBounded

warmup-IsBounded_example : IsBounded (warmup (record full { active_count = 0 }) 5 all_connect)
warmup-IsBounded_example =
    warmup-IsBounded (record full { active_count = 0 }) 5 all_connect
      (record { within = omega arith; fits = omega arith }) (omega arith)

-- Two sockets in use and `min_idle` two: four sockets in a pool of two.
warmup_overfills_example : ¬ IsBounded (warmup full 5 all_connect)
warmup_overfills_example = warmup_overfills full 5 all_connect (λ i. (i + 100, refl)) (omega arith)

get_connection-Handed_example :
    Handed idle_one 200 (connected 9) 7
    × ((get_connection idle_one 200 (connected 9)).0.active_count ≡ 2)
get_connection-Handed_example = get_connection-Handed idle_one 200 (connected 9) 7 reuses_idle

abbrev two_pools : ConnectionPool
two_pools = record { pools = (web, idle_one) ∷ (ssh, full) ∷ []; config = small }
