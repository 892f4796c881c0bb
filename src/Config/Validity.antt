-- ===== src/Config/Validity.antt =====
-- What a valid configuration is, independent of the loops of src/config/validator.rs.
use tls_tunnel.Prelude.{
  ℕ, ◌≤◌, ◌≡◌, ◌≢◌, ◌⊎◌, ◌↔◌, true, false, Option, none, some, List, [], map, length, All, Distinct,
  Str, is_blank,
}
use tls_tunnel.Config.Types.{
  ProxyConfig, VisitorConfig, ForwarderConfig, tls, RateLimitConfig, SizeLimitConfig, ServerConfig,
  ClientFullConfig,
}

pub record ProxyIsValid (p : ProxyConfig) : Type 0 where
  pub named : is_blank p.name ≡ false
  pub published : p.publish_port ≢ 0
  pub local : p.local_port ≢ 0
  pub addressed : is_blank p.publish_addr ≡ false

abbrev pub publish_binding : ProxyConfig → Str × ℕ
publish_binding p = (p.publish_addr, p.publish_port)

pub record ProxiesAreValid (ps : List ProxyConfig) : Type 0 where
  pub each : All ProxyIsValid ps
  pub names : Distinct (map (λ p. p.name) ps)
  pub bindings : Distinct (map publish_binding ps)
  pub local_ports : Distinct (map (λ p. p.local_port) ps)

pub record VisitorIsValid (v : VisitorConfig) : Type 0 where
  pub named : is_blank v.name ≡ false
  pub bound : v.bind_port ≢ 0
  pub published : v.publish_port ≢ 0
  pub addressed : is_blank v.bind_addr ≡ false

abbrev pub visitor_binding : VisitorConfig → Str × ℕ
visitor_binding v = (v.bind_addr, v.bind_port)

pub record VisitorsAreValid (vs : List VisitorConfig) : Type 0 where
  pub each : All VisitorIsValid vs
  pub names : Distinct (map (λ v. v.name) vs)
  pub bindings : Distinct (map visitor_binding vs)

pub record ForwarderIsValid (f : ForwarderConfig) : Type 0 where
  pub named : is_blank f.name ≡ false
  pub bound : f.bind_port ≢ 0
  pub addressed : is_blank f.bind_addr ≡ false

abbrev pub forwarder_binding : ForwarderConfig → Str × ℕ
forwarder_binding f = (f.bind_addr, f.bind_port)

pub record ForwardersAreValid (fs : List ForwarderConfig) : Type 0 where
  pub each : All ForwarderIsValid fs
  pub names : Distinct (map (λ f. f.name) fs)
  pub bindings : Distinct (map forwarder_binding fs)

pub record ClientIsValid (c : ClientFullConfig) : Type 0 where
  pub key : 16 ≤ length c.client.auth_key
  pub nonempty : (c.proxies ≢ []) ⊎ (c.visitors ≢ []) ⊎ (c.forwarders ≢ [])
  pub proxies : ProxiesAreValid c.proxies
  pub visitors : VisitorsAreValid c.visitors
  pub forwarders : ForwardersAreValid c.forwarders

abbrev pub RateLimitIsValid : RateLimitConfig → Type 0
RateLimitIsValid r = (r.requests_per_second ≢ 0) × (r.burst_size ≢ 0)

abbrev pub SizeLimitIsValid : SizeLimitConfig → Type 0
SizeLimitIsValid s =
    (s.max_request_size ≢ 0) × (s.max_header_size ≢ 0) × (s.max_header_size ≤ s.max_request_size)

abbrev pub IfSet {ℓ} : {A : Type ℓ} → (A → Type 0) → Option A → Type 0
IfSet P none = Unit
IfSet P (some a) = P a

-- A certificate and its key come together; behind a proxy there are none, and no TLS transport.
pub record ServerIsValid (c : ServerConfig) : Type 0 where
  pub addressed : is_blank c.bind_addr ≡ false
  pub key : 16 ≤ length c.auth_key
  pub stats : IfSet (λ a. is_blank a ≡ false) c.stats_addr
  pub certificate : (c.cert_path ≡ none) ↔ (c.key_path ≡ none)
  pub behind_proxy :
      c.behind_proxy ≡ true → (c.transport ≢ tls) × (c.cert_path ≡ none) × (c.key_path ≡ none)
  pub rate : IfSet RateLimitIsValid c.rate_limit
  pub sizes : IfSet SizeLimitIsValid c.size_limits
