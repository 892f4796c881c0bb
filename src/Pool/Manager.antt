-- ===== src/Pool/Manager.antt =====
-- `ConnectionPool` of src/connection_pool.rs: the map of address pools behind one lock. Each call
-- holds the lock to its end, so calls are atomic.
use tls_tunnel.Prelude.{
  ℕ, Option, none, some, List, [], ◌∷◌, map, Str, Table, lookup, insert, nat_eq, list_eq, Outcome,
}
use mathlib.Core.Option
use tls_tunnel.Pool.Address.{
  PoolConfig, default_config, AddressPool, Connect, PoolError, Probe, PoolStats, pool_new,
}
use tls_tunnel.Pool.Address

pub record ConnectionPool : Type 0 where
  pub pools : Table Str AddressPool
  pub config : PoolConfig

unfoldable pub new : PoolConfig → ConnectionPool
new config = record { pools = []; config = config }

unfoldable pub with_defaults : ConnectionPool
unfolding new
with_defaults = new default_config

-- `entry(..).or_insert_with(..)`: the pool of an address, a fresh one if there is none.
unfoldable pub entry : ConnectionPool → Str → AddressPool
entry m address = elim (lookup address m.pools) [ none ↦ pool_new address m.config | some p ↦ p ]

unfoldable pub put : ConnectionPool → Str → AddressPool → ConnectionPool
put m address p = record m { pools = insert address p m.pools }

unfoldable pub get : ConnectionPool → Str → ℕ → Connect → ConnectionPool × Outcome PoolError ℕ
unfolding entry put
get m address now c =
    let (p, r) = Address.get_connection (entry m address) now c in (put m address p, r)

-- `if let Some(pool) = pools.get_mut(address)`
unfoldable pub modify : ConnectionPool → Str → (AddressPool → AddressPool) → ConnectionPool
unfolding put
modify m address f = elim (lookup address m.pools) [ none ↦ m | some p ↦ put m address (f p) ]

unfoldable pub return_connection : ConnectionPool → Str → ℕ → Probe → ℕ → ConnectionPool
unfolding modify
return_connection m address stream probe now =
    modify m address (λ p. Address.return_connection p stream probe now)

unfoldable pub discard_connection : ConnectionPool → Str → ℕ → ConnectionPool
unfolding modify
discard_connection m address stream = modify m address (λ p. Address.discard_connection p stream)

unfoldable pub warmup : ConnectionPool → Str → ℕ → (ℕ → Connect) → ConnectionPool
unfolding entry put
warmup m address now answers = put m address (Address.warmup (entry m address) now answers)

-- A warm-up never fails, so the error branch of the loop is not reached.
unfoldable pub warmup_all : ConnectionPool → List Str → ℕ → (Str → ℕ → Connect) → ConnectionPool
unfolding warmup
warmup_all m [] now answers = m
warmup_all m (a ∷ addresses) now answers =
    warmup_all (warmup m a now (answers a)) addresses now answers

unfoldable pub stats : ConnectionPool → Str → Option PoolStats
stats m address = Option.map Address.stats (lookup address m.pools)

unfoldable pub all_stats : ConnectionPool → Table Str PoolStats
all_stats m = map (λ e. (e.0, Address.stats e.1)) m.pools

unfoldable pub cleanup_expired : ConnectionPool → ℕ → ConnectionPool
cleanup_expired m now = record m {
  pools = map (λ e. (e.0, Address.cleanup_expired e.1 now)) m.pools;
}
