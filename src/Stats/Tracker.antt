-- ===== src/Stats/Tracker.antt =====
-- `ProxyStats` and the counters of `ProxyStatsTracker` of src/stats.rs. An atomic counter of 64 bits
-- wraps. The clones of a tracker share its counters: they are one entry of a store, see `Manager`.
use tls_tunnel.Prelude.{ℕ, ◌+◌, ◌-◌, ◌%◌, ◌^◌, Str}

abbrev pub u64_mod : ℕ
u64_mod = 2 ^ 64

-- `fetch_add` and `fetch_sub`
unfoldable pub fetch_add : ℕ → ℕ → ℕ
fetch_add x n = (x + n) % u64_mod

unfoldable pub fetch_sub : ℕ → ℕ → ℕ
fetch_sub x n = (x + u64_mod - n) % u64_mod

pub record Tracker : Type 0 where
  pub name : Str
  pub publish_addr : Str
  pub publish_port : ℕ
  pub local_port : ℕ
  pub total_connections : ℕ
  pub active_connections : ℕ
  pub bytes_sent : ℕ
  pub bytes_received : ℕ
  pub start_time : ℕ

unfoldable pub tracker_new : Str → Str → ℕ → ℕ → ℕ → Tracker
tracker_new name publish_addr publish_port local_port now = record {
  name = name;
  publish_addr = publish_addr;
  publish_port = publish_port;
  local_port = local_port;
  total_connections = 0;
  active_connections = 0;
  bytes_sent = 0;
  bytes_received = 0;
  start_time = now;
}

unfoldable pub connection_started : Tracker → Tracker
unfolding fetch_add
connection_started t = record t {
  total_connections = fetch_add t.total_connections 1;
  active_connections = fetch_add t.active_connections 1;
}

unfoldable pub connection_ended : Tracker → Tracker
unfolding fetch_sub
connection_ended t = record t { active_connections = fetch_sub t.active_connections 1 }

unfoldable pub add_bytes_sent : ℕ → Tracker → Tracker
unfolding fetch_add
add_bytes_sent bytes t = record t { bytes_sent = fetch_add t.bytes_sent bytes }

unfoldable pub add_bytes_received : ℕ → Tracker → Tracker
unfolding fetch_add
add_bytes_received bytes t = record t { bytes_received = fetch_add t.bytes_received bytes }

-- A snapshot reads each field: `ProxyStats` has the fields of the tracker.
abbrev pub ProxyStats : Type 0
ProxyStats = Tracker
