-- ===== src/Pool/Address.antt =====
-- `PoolConfig`, `PooledConnection` and `AddressPool` of src/connection_pool.rs.
-- Time is an argument (`Instant::now()`), and so is what the operating system answers to a connect
-- and to a probe of a socket. A socket is a number. `usize` arithmetic wraps as in a release build.
use tls_tunnel.Prelude.{
  ℕ, zero, suc, ◌+◌, ◌-◌, ◌%◌, ◌^◌, Bool, true, false, not, ◌&&◌, Option, none, some, List, [], ◌∷◌,
  ltb, leb, if◌then◌else◌, length, retain, Str, is_some, Outcome, ok, err,
}

pub record PoolConfig : Type 0 where
  pub min_idle : ℕ
  pub max_size : ℕ
  pub max_idle_time : ℕ
  pub connect_timeout : ℕ
  pub keepalive_time : Option ℕ
  pub keepalive_interval : Option ℕ
  pub reuse_connections : Bool

-- Times are milliseconds.
abbrev pub default_config : PoolConfig
default_config = record {
  min_idle = 2;
  max_size = 10;
  max_idle_time = 60_000;
  connect_timeout = 5_000;
  keepalive_time = some 30_000;
  keepalive_interval = some 10_000;
  reuse_connections = false;
}

pub record PooledConnection : Type 0 where
  pub stream : ℕ
  pub created_at : ℕ
  pub last_used : ℕ

unfoldable pub pooled_new : ℕ → ℕ → PooledConnection
pooled_new stream now = record { stream = stream; created_at = now; last_used = now }

-- `elapsed` saturates at zero, as the subtraction does here.
unfoldable pub is_expired : PooledConnection → ℕ → ℕ → Bool
is_expired c max_idle_time now = ltb max_idle_time (now - c.last_used)

-- `idle_connections` is a vector that is pushed and popped at its end: the head of the list.
pub record AddressPool : Type 0 where
  pub address : Str
  pub config : PoolConfig
  pub idle_connections : List PooledConnection
  pub active_count : ℕ

-- The outcome of `timeout(connect_timeout, TcpStream::connect(..))`.
pub data Connect : Type 0 where
  connected : ℕ → Connect
  refused timed_out : Connect

pub data PoolError : Type 0 where
  exhausted connection_timeout failed_to_connect : PoolError

-- The outcome of `stream.try_read` on an idle socket.
pub data Probe : Type 0 where
  eof unexpected_data would_block broken : Probe

abbrev pub usize_mod : ℕ
usize_mod = 2 ^ 64

unfoldable pub sub_usize : ℕ → ℕ → ℕ
sub_usize a b = (a + usize_mod - b) % usize_mod

unfoldable pub pool_new : Str → PoolConfig → AddressPool
pool_new address config = record {
  address = address;
  config = config;
  idle_connections = [];
  active_count = 0;
}

unfoldable pub cleanup_expired : AddressPool → ℕ → AddressPool
unfolding is_expired
cleanup_expired p now = record p {
  idle_connections = retain (λ c. not (is_expired c p.config.max_idle_time now)) p.idle_connections;
}

-- The part of `get_connection` behind the idle list: the size check and the new connection.
unfoldable pub connect_new : AddressPool → Connect → AddressPool × Outcome PoolError ℕ
connect_new p c =
    if leb p.config.max_size (p.active_count + length p.idle_connections)
    then (p, err exhausted)
    else elim c [
      | connected stream ↦ (record p { active_count = p.active_count + 1 }, ok stream)
      | refused ↦ (p, err failed_to_connect)
      | timed_out ↦ (p, err connection_timeout)
    ]

-- `if let Some(mut pooled) = self.idle_connections.pop()`
unfoldable pub pop_or_connect :
    List PooledConnection → AddressPool → Connect → AddressPool × Outcome PoolError ℕ
unfolding connect_new
pop_or_connect [] p c = connect_new p c
pop_or_connect (pooled ∷ rest) p c =
    (record p { idle_connections = rest; active_count = p.active_count + 1 }, ok pooled.stream)

unfoldable pub get_connection : AddressPool → ℕ → Connect → AddressPool × Outcome PoolError ℕ
unfolding cleanup_expired pop_or_connect
get_connection p now c = let p' = cleanup_expired p now in pop_or_connect p'.idle_connections p' c

unfoldable pub is_connection_healthy : Probe → Bool
is_connection_healthy eof = false
is_connection_healthy unexpected_data = true
is_connection_healthy would_block = true
is_connection_healthy broken = false

unfoldable pub return_connection : AddressPool → ℕ → Probe → ℕ → AddressPool
unfolding is_connection_healthy sub_usize pooled_new
return_connection p stream probe now =
    let active = p.active_count - 1 in
    let dropped : AddressPool = record p { active_count = active } in
    if not p.config.reuse_connections
    then dropped
    else if not (is_connection_healthy probe)
    then dropped
    else if leb (sub_usize p.config.max_size active) (length p.idle_connections)
    then dropped
    else record p {
      active_count = active;
      idle_connections = pooled_new stream now ∷ p.idle_connections;
    }

unfoldable pub discard_connection : AddressPool → ℕ → AddressPool
discard_connection p stream = record p { active_count = p.active_count - 1 }

-- The body of the loop of `warmup`: a failure is logged and skipped.
unfoldable pub warm_one : AddressPool → ℕ → Connect → AddressPool
unfolding pooled_new
warm_one p now (connected stream) = record p {
  idle_connections = pooled_new stream now ∷ p.idle_connections;
}
warm_one p now refused = p
warm_one p now timed_out = p

-- `for _ in 0..target`: one outcome of `connect` for each round that is left.
unfoldable pub warmup_rounds : AddressPool → ℕ → ℕ → (ℕ → Connect) → AddressPool
unfolding warm_one
warmup_rounds p now zero answers = p
warmup_rounds p now (suc n) answers = warmup_rounds (warm_one p now (answers n)) now n answers

unfoldable pub warmup : AddressPool → ℕ → (ℕ → Connect) → AddressPool
unfolding warmup_rounds
warmup p now answers = warmup_rounds p now (p.config.min_idle - length p.idle_connections) answers

pub record PoolStats : Type 0 where
  pub active : ℕ
  pub idle : ℕ
  pub total : ℕ
  pub max_size : ℕ

unfoldable pub stats : AddressPool → PoolStats
stats p = record {
  active = p.active_count;
  idle = length p.idle_connections;
  total = p.active_count + length p.idle_connections;
  max_size = p.config.max_size;
}

-- The options that `apply_keepalive` sets on a socket: none, or the time and the interval given.
unfoldable pub apply_keepalive : PoolConfig → Option (Option ℕ × Option ℕ)
apply_keepalive config =
    if not (is_some config.keepalive_time) && not (is_some config.keepalive_interval)
    then none
    else some (config.keepalive_time, config.keepalive_interval)
