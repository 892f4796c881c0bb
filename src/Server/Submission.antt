-- ===== src/Server/Submission.antt =====
-- `handle_proxy_config_submission` and `start_proxy_listeners_for_world` of src/server/mod.rs.
-- Other sessions may change the registry between its locks: `Interference` is what they do to it.
use tls_tunnel.Prelude.{
  ℕ, Bool, true, false, not, ◌&&◌, ◌||◌, Option, none, some, List, [], ◌∷◌, ◌++◌, length,
  if◌then◌else◌, Str, is_blank, ◌==◌, nat_eq, list_eq, pair_eq, contains, insert, has_key,
  with_port,
}
use tls_tunnel.Config.Types.{ProxyConfig, VisitorConfig}
use tls_tunnel.Config.Validator.{is_empty}
use tls_tunnel.Stats.Manager.{StatsManager, register_proxy}
use tls_tunnel.Server.World.{
  info_of, ProxyRegistration, Key, ProxyRegistry, Shared, running, Refusal, duplicate_proxy_name,
  duplicate_binding, invalid_proxy, port_conflict, all_proxies, Message, config_accepted,
  config_partially_rejected, config_rejected, all_rejected_notice, partial_rejection_notice,
  Listener, ServerWorld, send,
}

unfoldable pub proxy_key : ProxyConfig → Key
proxy_key p = (p.name, p.publish_port)

-- The last two tests of the loop, on one proxy.
unfoldable pub refuse_fields : ℕ → ProxyConfig → Option Refusal
refuse_fields bind_port p =
    if p.publish_port == 0 || p.local_port == 0 || is_blank p.publish_addr || is_blank p.name
    then some (invalid_proxy p.name)
    else if p.publish_port == bind_port
    then some (port_conflict p.name)
    else none

-- The loop that validates: the first proxy that fails a test decides.
unfoldable pub refuse_from : ℕ → List Str → List Key → List ProxyConfig → Option Refusal
unfolding refuse_fields
refuse_from bind_port names binds [] = none
refuse_from bind_port names binds (p ∷ ps) =
    let bind : Key = (p.publish_addr, p.publish_port) in
    let rest = refuse_from bind_port (p.name ∷ names) (bind ∷ binds) ps in
    if contains p.name names
    then some (duplicate_proxy_name p.name)
    else if contains bind binds
    then some (duplicate_binding p.publish_addr p.publish_port)
    else elim (refuse_fields bind_port p) [ some r ↦ some r | none ↦ rest ]

-- The pre-check under the read lock: which proxies are taken.
unfoldable pub taken : ProxyRegistry → List ProxyConfig → List Str
unfolding proxy_key
taken registry [] = []
taken registry (p ∷ ps) =
    let rest = taken registry ps in
    if has_key (proxy_key p) registry then with_port p.name p.publish_port ∷ rest else rest

-- The registration under the write lock: a taken key is skipped.
unfoldable pub register : ℕ → List Key → ProxyRegistry → List ProxyConfig → List Key × ProxyRegistry
unfolding proxy_key info_of
register stream_tx keys registry [] = (keys, registry)
register stream_tx keys registry (p ∷ ps) =
    let skipped = register stream_tx keys registry ps in
    let entry : ProxyRegistration = record { stream_tx = stream_tx; proxy_info = info_of p } in
    let added =
      register stream_tx (keys ++ proxy_key p ∷ []) (insert (proxy_key p) entry registry) ps in
    if has_key (proxy_key p) registry then skipped else added

-- The check of the visitors under the last read lock.
unfoldable pub unresolved : ProxyRegistry → List VisitorConfig → List Str
unresolved registry [] = []
unresolved registry (v ∷ vs) =
    let key : Key = (v.name, v.publish_port) in
    let rest = unresolved registry vs in
    if has_key key registry then rest else with_port v.name v.publish_port ∷ rest

unfoldable pub start_listeners :
    StatsManager → ℕ → List Listener → List ProxyConfig → StatsManager × List Listener
unfolding info_of
start_listeners stats now running_tasks [] = (stats, running_tasks)
start_listeners stats now running_tasks (p ∷ ps) =
    let (stats', tracker) =
      register_proxy stats p.name p.publish_addr p.publish_port p.local_port now in
    start_listeners stats' now (running_tasks ++ (info_of p, tracker) ∷ []) ps

pub record Interference : Type 0 where
  pub before_register : ProxyRegistry → ProxyRegistry
  pub before_visitors : ProxyRegistry → ProxyRegistry

abbrev pub undisturbed : Interference
undisturbed = record { before_register = λ r. r; before_visitors = λ r. r }

-- `none` is an error of the control stream, which the event loop takes for `false`.
pub record Submitted : Type 0 where
  pub world : ServerWorld
  pub shared : Shared
  pub result : Option Bool

-- A message that `?` follows, and what the function returns if it was written.
unfoldable pub answer : (ℕ → Bool) → ServerWorld → Shared → Message → Bool → Submitted
unfolding send
answer delivers w s m b =
    let (w', written) = send delivers w m in
    record { world = w'; shared = s; result = if written then some b else none }

-- From the response to the end of the function.
unfoldable pub conclude :
    (ℕ → Bool) → ServerWorld → Shared → ℕ → ℕ → List ProxyConfig → List Str → Submitted
unfolding send
conclude delivers w s id now proxies rejected =
    let notified =
      if is_empty rejected then w else (send delivers w (partial_rejection_notice rejected)).0 in
    let response =
      if is_empty rejected then config_accepted id else config_partially_rejected id rejected in
    let (w', written) = send delivers notified response in
    let (stats, tasks) = start_listeners s.stats_manager now w'.listeners proxies in
    if written
    then record {
      world = record w' { session_state = running; listeners = tasks };
      shared = record s { stats_manager = stats };
      result = some true;
    }
    else record { world = w'; shared = s; result = none }

-- From the registration on, with the proxies that the pre-check found taken.
unfoldable pub accept_proxies :
    (ℕ → Bool)
    → Interference
    → ServerWorld
    → Shared
    → ℕ
    → ℕ
    → List ProxyConfig
    → List VisitorConfig
    → List Str
    → Submitted
unfolding register conclude
accept_proxies delivers others w s id now proxies visitors rejected =
    let (keys, registry) =
      register w.stream_tx w.proxy_keys (others.before_register s.proxy_registry) proxies in
    let registry' = others.before_visitors registry in
    conclude delivers (record w { proxy_keys = keys }) (record s { proxy_registry = registry' }) id
      now proxies (rejected ++ unresolved registry' visitors)

unfoldable pub submit :
    (ℕ → Bool)
    → Interference
    → ServerWorld
    → Shared
    → ℕ
    → ℕ
    → List ProxyConfig
    → List VisitorConfig
    → Submitted
unfolding refuse_from answer accept_proxies
submit delivers others w s id now proxies visitors =
    elim (refuse_from s.config.bind_port [] [] proxies) [
      | some r ↦ answer delivers w s (config_rejected id r) false
      | none ↦
          let rejected = taken s.proxy_registry proxies in
          if not (is_empty proxies) && length rejected == length proxies
          then answer delivers (send delivers w (all_rejected_notice rejected)).0 s
              (config_rejected id (all_proxies rejected)) false
          else accept_proxies delivers others w s id now proxies visitors rejected
    ]
