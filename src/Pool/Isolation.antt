-- ===== src/Pool/Isolation.antt =====
-- The address pools of one `ConnectionPool` of src/connection_pool.rs do not affect one another.
use tls_tunnel.Prelude.{
  ℕ, ◌^◌, ◌≤◌, ◌<◌, ◌≡◌, ◌≢◌, arith, Str, lookup, nat_eq, list_eq, list_beq_iff, lookup-insert,
  some, Option-cases, inl, inr,
}
use tls_tunnel.Pool.Address.{AddressPool, Connect, Probe}
use tls_tunnel.Pool.Manager.{ConnectionPool, entry, put, modify}
use tls_tunnel.Pool.Manager
use tls_tunnel.Pool.Bounds.{IsBounded}

-- The calls on the manager that name an address.
pub data Request : Type 0 where
  get : Str → ℕ → Connect → Request
  give_back : Str → ℕ → Probe → ℕ → Request
  drop_bad : Str → ℕ → Request
  warm : Str → ℕ → (ℕ → Connect) → Request

abbrev pub address_of : Request → Str
address_of (get a now c) = a
address_of (give_back a s probe now) = a
address_of (drop_bad a s) = a
address_of (warm a now answers) = a

unfoldable pub perform : ConnectionPool → Request → ConnectionPool
perform m (get a now c) = (Manager.get m a now c).0
perform m (give_back a s probe now) = Manager.return_connection m a s probe now
perform m (drop_bad a s) = Manager.discard_connection m a s
perform m (warm a now answers) = Manager.warmup m a now answers

put-lookup :
    (m : ConnectionPool) (a b : Str) (p : AddressPool)
    → a ≢ b
    → lookup b (put m a p).pools ≡ lookup b m.pools
unfolding put
put-lookup m a b p h = ground (arith, lookup-insert a b p m.pools, list_beq_iff a b)

modify-lookup :
    (m : ConnectionPool) (a b : Str) (f : AddressPool → AddressPool)
    → a ≢ b
    → lookup b (modify m a f).pools ≡ lookup b m.pools
unfolding modify
modify-lookup m a b f h = elim (Option-cases (lookup a m.pools)) [
  | inl e ↦ rw (e, modify)
  | inr (p, e) ↦ rw (e, modify) (put-lookup m a b (f p) h)
]

-- A call for one address leaves the pool of every other address as it was.
pub perform_isolated :
    (m : ConnectionPool) (r : Request) (b : Str)
    → address_of r ≢ b
    → lookup b (perform m r).pools ≡ lookup b m.pools
unfolding perform Manager.get Manager.return_connection Manager.discard_connection Manager.warmup
perform_isolated m (get a now c) b h = put-lookup m a b _ h
perform_isolated m (give_back a s probe now) b h = modify-lookup m a b _ h
perform_isolated m (drop_bad a s) b h = modify-lookup m a b _ h
perform_isolated m (warm a now answers) b h = put-lookup m a b _ h

-- Every address pool is within the limit of the manager's configuration.
pub record AllBounded (m : ConnectionPool) : Type 0 where
  pub at :
      (b : Str) (p : AddressPool) → lookup b m.pools ≡ some p → IsBounded p × (p.config ≡ m.config)
  pub fits : m.config.max_size < 2 ^ 64
  pub idle_fits : m.config.min_idle ≤ m.config.max_size

-- A warm-up of an address whose pool has no connection in use, a fresh one included.
abbrev pub WarmsUnused : ConnectionPool → Request → Type 0
WarmsUnused m (warm a now answers) = (entry m a).active_count ≡ 0
WarmsUnused m _ = Unit {0}
