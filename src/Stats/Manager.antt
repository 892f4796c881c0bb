-- ===== src/Stats/Manager.antt =====
-- `StatsManager` of src/stats.rs: the trackers by name. A tracker is a handle into a store, so that
-- the clones that connections hold keep counting after the name was given to another tracker.
use tls_tunnel.Prelude.{
  ℕ, ◌+◌, Option, none, some, List, [], ◌∷◌, Str, Table, lookup, insert, remove, nat_eq, list_eq,
}
use mathlib.Core.Option
use tls_tunnel.Stats.Tracker.{Tracker, ProxyStats, tracker_new}

pub record StatsManager : Type 0 where
  pub proxies : Table Str ℕ
  pub trackers : Table ℕ Tracker
  pub next : ℕ

unfoldable pub stats_new : StatsManager
stats_new = record { proxies = []; trackers = []; next = 0 }

-- The new handle is returned with the state.
unfoldable pub register_proxy : StatsManager → Str → Str → ℕ → ℕ → ℕ → StatsManager × ℕ
unfolding tracker_new
register_proxy m name publish_addr publish_port local_port now = (
  record {
    proxies = insert name m.next m.proxies;
    trackers = insert m.next (tracker_new name publish_addr publish_port local_port now) m.trackers;
    next = m.next + 1;
  },
  m.next,
)

unfoldable pub unregister_proxy : StatsManager → Str → StatsManager
unregister_proxy m name = record m { proxies = remove name m.proxies }

-- An operation through a handle, whether or not its name is still registered.
unfoldable pub update : StatsManager → ℕ → (Tracker → Tracker) → StatsManager
update m handle f = elim (lookup handle m.trackers) [
  | none ↦ m
  | some t ↦ record m { trackers = insert handle (f t) m.trackers }
]

unfoldable pub get_proxy_stats : StatsManager → Str → Option ProxyStats
get_proxy_stats m name = Option.bind (lookup name m.proxies) (λ handle. lookup handle m.trackers)

stats_of : Table ℕ Tracker → Table Str ℕ → List ProxyStats
stats_of trackers [] = []
stats_of trackers ((name, handle) ∷ entries) =
    let rest = stats_of trackers entries in
    elim (lookup handle trackers) [ none ↦ rest | some t ↦ t ∷ rest ]

unfoldable pub get_all_stats : StatsManager → List ProxyStats
unfolding stats_of
get_all_stats m = stats_of m.trackers m.proxies

unfoldable pub clear : StatsManager → StatsManager
clear m = record m { proxies = [] }
