-- ===== src/Config/Types.antt =====
-- The configuration records of src/config/mod.rs and the transport types of src/transport/mod.rs.
-- A path and a string are bytes; a port is a number.
use tls_tunnel.Prelude.{ℕ, Bool, true, false, Option, List, ◌*◌, Str}

pub data ProxyType : Type 0 where
  tcp http11 http2 ssh http_proxy socks5_proxy : ProxyType

unfoldable pub should_reuse_connections : ProxyType → Bool
should_reuse_connections http11 = true
should_reuse_connections http2 = true
should_reuse_connections _ = false

unfoldable pub is_multiplexed : ProxyType → Bool
is_multiplexed http2 = true
is_multiplexed _ = false

unfoldable pub needs_nodelay : ProxyType → Bool
needs_nodelay ssh = true
needs_nodelay _ = false

pub record ProxyConfig : Type 0 where
  pub name : Str
  pub proxy_type : ProxyType
  pub publish_addr : Str
  pub publish_port : ℕ
  pub local_port : ℕ

pub record VisitorConfig : Type 0 where
  pub name : Str
  pub proxy_type : ProxyType
  pub bind_addr : Str
  pub bind_port : ℕ
  pub publish_port : ℕ

pub data RoutingStrategy : Type 0 where
  direct proxy unknown : RoutingStrategy

pub record RoutingConfig : Type 0 where
  pub geoip_db : Option Str
  pub direct_countries : List Str
  pub proxy_countries : List Str
  pub direct_ips : List Str
  pub proxy_ips : List Str
  pub direct_domains : List Str
  pub proxy_domains : List Str
  pub default_strategy : RoutingStrategy

pub record ForwarderConfig : Type 0 where
  pub name : Str
  pub proxy_type : ProxyType
  pub bind_addr : Str
  pub bind_port : ℕ
  pub routing : Option RoutingConfig

pub data TransportType : Type 0 where
  tls http2_transport wss unknown_transport : TransportType

pub record RateLimitConfig : Type 0 where
  pub requests_per_second : ℕ
  pub burst_size : ℕ

abbrev pub default_rate_limit : RateLimitConfig
default_rate_limit = record { requests_per_second = 100; burst_size = 200 }

pub record SizeLimitConfig : Type 0 where
  pub max_request_size : ℕ
  pub max_header_size : ℕ

abbrev pub default_size_limit : SizeLimitConfig
default_size_limit = record { max_request_size = 1024 * 1024; max_header_size = 8 * 1024 }

pub record ServerConfig : Type 0 where
  pub bind_addr : Str
  pub bind_port : ℕ
  pub transport : TransportType
  pub behind_proxy : Bool
  pub cert_path : Option Str
  pub key_path : Option Str
  pub auth_key : Str
  pub stats_port : Option ℕ
  pub stats_addr : Option Str
  pub allow_forward : Bool
  pub rate_limit : Option RateLimitConfig
  pub size_limits : Option SizeLimitConfig

pub record ClientConfig : Type 0 where
  pub server_addr : Str
  pub server_port : ℕ
  pub server_path : Str
  pub transport : TransportType
  pub skip_verify : Bool
  pub ca_cert_path : Option Str
  pub auth_key : Str
  pub stats_port : Option ℕ
  pub stats_addr : Option Str

pub record ClientFullConfig : Type 0 where
  pub client : ClientConfig
  pub proxies : List ProxyConfig
  pub visitors : List VisitorConfig
  pub forwarders : List ForwarderConfig
