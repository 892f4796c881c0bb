-- ===== src/Server/World.antt =====
-- The state of src/server: `ProxyRegistry` of registry.rs, `ServerState` and `ServerWorld` of mod.rs,
-- and the messages of control_channel.rs. The channel `stream_tx` of a session is a number, the
-- session's identity. The registry and the statistics are shared by all sessions.
use tls_tunnel.Prelude.{
  ℕ, ◌+◌, Bool, true, false, Option, none, List, [], ◌∷◌, ◌++◌, Str, Table, remove, nat_eq, list_eq,
  pair_eq,
}
use tls_tunnel.Config.Types.{ProxyType, ProxyConfig, ServerConfig}
use tls_tunnel.Stats.Manager.{StatsManager}

pub record ProxyInfo : Type 0 where
  pub name : Str
  pub proxy_type : ProxyType
  pub publish_addr : Str
  pub publish_port : ℕ
  pub local_port : ℕ

unfoldable pub info_of : ProxyConfig → ProxyInfo
info_of p = record {
  name = p.name;
  proxy_type = p.proxy_type;
  publish_addr = p.publish_addr;
  publish_port = p.publish_port;
  local_port = p.local_port;
}

pub record ProxyRegistration : Type 0 where
  pub stream_tx : ℕ
  pub proxy_info : ProxyInfo

abbrev pub Key : Type 0
Key = Str × ℕ

abbrev pub ProxyRegistry : Type 0
ProxyRegistry = Table Key ProxyRegistration

pub record Shared : Type 0 where
  pub config : ServerConfig
  pub stats_manager : StatsManager
  pub proxy_registry : ProxyRegistry

pub data SessionState : Type 0 where
  authenticating authenticated configuring_proxy running : SessionState

-- Why a submission is refused as a whole.
pub data Refusal : Type 0 where
  duplicate_proxy_name : Str → Refusal
  duplicate_binding : Str → ℕ → Refusal
  invalid_proxy : Str → Refusal
  port_conflict : Str → Refusal
  all_proxies : List Str → Refusal

-- What the server writes to the control stream; the first number is the request's id.
pub data Message : Type 0 where
  auth_success : ℕ → ℕ → Message
  auth_failure : ℕ → Message
  config_accepted : ℕ → Message
  config_partially_rejected : ℕ → List Str → Message
  config_rejected : ℕ → Refusal → Message
  all_rejected_notice partial_rejection_notice : List Str → Message

-- A listener task: what it publishes, and the handle of its tracker.
abbrev pub Listener : Type 0
Listener = ProxyInfo × ℕ

pub record ServerWorld : Type 0 where
  pub stream_tx : ℕ
  pub session_state : SessionState
  pub proxy_keys : List Key
  pub client_id : Option ℕ
  pub listeners : List Listener
  pub sent : List Message
  pub attempts : ℕ
  pub shut_down : Bool

unfoldable pub world_new : ℕ → ServerWorld
world_new stream_tx = record {
  stream_tx = stream_tx;
  session_state = authenticating;
  proxy_keys = [];
  client_id = none;
  listeners = [];
  sent = [];
  attempts = 0;
  shut_down = false;
}

unfoldable pub remove_keys : List Key → ProxyRegistry → ProxyRegistry
remove_keys [] registry = registry
remove_keys (key ∷ keys) registry = remove_keys keys (remove key registry)

-- `ServerWorld::cleanup`
unfoldable pub cleanup : ServerWorld → ProxyRegistry → ServerWorld × ProxyRegistry
unfolding remove_keys
cleanup w registry = (record w { shut_down = true }, remove_keys w.proxy_keys registry)

-- A write to the control stream: the attempt of that number succeeds or fails.
unfoldable pub send : (ℕ → Bool) → ServerWorld → Message → ServerWorld × Bool
send delivers w m = elim (delivers w.attempts) [
  | true ↦ (record w { sent = w.sent ++ m ∷ []; attempts = w.attempts + 1 }, true)
  | false ↦ (record w { attempts = w.attempts + 1 }, false)
]
