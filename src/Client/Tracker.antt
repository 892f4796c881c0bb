-- ===== src/Client/Tracker.antt =====
-- `ClientStatsTracker` and `ClientStatsManager` of src/client/stats.rs. The clones of a tracker share their
-- counters: a tracker is a handle, its number, into a store.
use tls_tunnel.Prelude.{
  ℕ, ◌/◌, ◌%◌, Option, List, [], ◌∷◌, ◌++◌, Str, codes, decimal, ltb, if◌then◌else◌, ◌==◌, nat_eq,
  list_eq, lookup, map,
}
use tls_tunnel.Config.Types.{ProxyType}
use tls_tunnel.Stats.Tracker.{fetch_add, fetch_sub}

pub record ClientStatsTracker : Type 0 where
  pub name : Str
  pub proxy_type : ProxyType
  pub bind_addr : Str
  pub bind_port : ℕ
  pub target_addr : Str
  pub target_port : ℕ
  pub active_connections : ℕ
  pub total_connections : ℕ
  pub bytes_sent : ℕ
  pub bytes_received : ℕ
  pub start_time : ℕ
  pub status : Str

unfoldable pub tracker_new : Str → ProxyType → Str → ℕ → Str → ℕ → ℕ → ClientStatsTracker
tracker_new name proxy_type bind_addr bind_port target_addr target_port now = record {
  name = name;
  proxy_type = proxy_type;
  bind_addr = bind_addr;
  bind_port = bind_port;
  target_addr = target_addr;
  target_port = target_port;
  active_connections = 0;
  total_connections = 0;
  bytes_sent = 0;
  bytes_received = 0;
  start_time = now;
  status = codes "Idle";
}

unfoldable pub update_status : Str → ClientStatsTracker → ClientStatsTracker
update_status status t = record t { status = status }

unfoldable pub connection_started : ClientStatsTracker → ClientStatsTracker
unfolding fetch_add update_status
connection_started t = update_status (codes "Connected") (record t {
  active_connections = fetch_add t.active_connections 1;
  total_connections = fetch_add t.total_connections 1;
})

unfoldable pub connection_ended : ClientStatsTracker → ClientStatsTracker
unfolding fetch_sub update_status
connection_ended t =
    let ended = record t { active_connections = fetch_sub t.active_connections 1 } in
    if ended.active_connections == 0 then update_status (codes "Idle") ended else ended

unfoldable pub record_bytes_sent : ℕ → ClientStatsTracker → ClientStatsTracker
unfolding fetch_add
record_bytes_sent bytes t = record t { bytes_sent = fetch_add t.bytes_sent bytes }

unfoldable pub record_bytes_received : ℕ → ClientStatsTracker → ClientStatsTracker
unfolding fetch_add
record_bytes_received bytes t = record t { bytes_received = fetch_add t.bytes_received bytes }

unfoldable pub reset : ClientStatsTracker → ClientStatsTracker
unfolding update_status
reset t =
    update_status (codes "Reset") (record t {
      active_connections = 0;
      total_connections = 0;
      bytes_sent = 0;
      bytes_received = 0;
    })

-- A snapshot reads each field: `ClientProxyStats` has the fields of the tracker.
abbrev pub ClientProxyStats : Type 0
ClientProxyStats = ClientStatsTracker

unfoldable pub snapshot : ClientStatsTracker → ClientProxyStats
snapshot t = t

-- The manager's vector of trackers: the name and the handle of each.
abbrev pub ClientStatsManager : Type 0
ClientStatsManager = List (Str × ℕ)

unfoldable pub add_tracker : ClientStatsManager → Str × ℕ → ClientStatsManager
add_tracker trackers tracker = trackers ++ tracker ∷ []

unfoldable pub add_or_update_tracker : ClientStatsManager → Str × ℕ → ClientStatsManager
add_or_update_tracker [] tracker = tracker ∷ []
add_or_update_tracker (t ∷ trackers) tracker =
    let later = add_or_update_tracker trackers tracker in
    if t.0 == tracker.0 then tracker ∷ trackers else t ∷ later

unfoldable pub get_tracker : ClientStatsManager → Str → Option ℕ
get_tracker trackers name = lookup name trackers

unfoldable pub get_all_stats : (ℕ → ClientStatsTracker) → ClientStatsManager → List ClientProxyStats
unfolding snapshot
get_all_stats store trackers = map (λ (t : Str × ℕ). snapshot (store t.1)) trackers

-- `format_duration`
unfoldable pub format_duration : ℕ → Str
format_duration seconds =
    let days = seconds / 86400 in
    let hours = seconds % 86400 / 3600 in
    let minutes = seconds % 3600 / 60 in
    let secs = seconds % 60 in
    if ltb 0 days
    then decimal days ++ codes "d " ++ decimal hours ++ codes "h"
    else if ltb 0 hours
    then decimal hours ++ codes "h " ++ decimal minutes ++ codes "m"
    else if ltb 0 minutes
    then decimal minutes ++ codes "m " ++ decimal secs ++ codes "s"
    else decimal secs ++ codes "s"
