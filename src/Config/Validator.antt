-- ===== src/Config/Validator.antt =====
-- `ConfigValidator` of src/config/validator.rs. Warnings are logged only and left out.
use tls_tunnel.Prelude.{
  ℕ, Bool, true, false, not, ◌&&◌, ◌||◌, Option, none, some, List, [], ◌∷◌, ltb, length, is_some,
  Str, is_blank, ◌==◌, nat_eq, list_eq, pair_eq, contains, Outcome, ok, ◌>>◌, ensure,
}
use tls_tunnel.Config.Types.{
  ProxyConfig, VisitorConfig, ForwarderConfig, TransportType, tls, RateLimitConfig, SizeLimitConfig,
  ServerConfig, ClientFullConfig,
}

-- The messages of `bail!`, with what they name.
pub data ConfigError : Type 0 where
  auth_key_too_short : ℕ → ConfigError
  zero_port empty_address empty_name : Str → ConfigError
  cert_and_key tls_behind_proxy certificates_behind_proxy : ConfigError
  zero_requests_per_second zero_burst_size : ConfigError
  zero_request_size zero_header_size header_above_request : ConfigError
  duplicate_name : Str → ConfigError
  duplicate_binding : Str → ℕ → ConfigError
  duplicate_local_port : ℕ → ConfigError
  nothing_defined : ConfigError

abbrev pub Check : Type 0
Check = Outcome ConfigError (Unit {0})

unfoldable pub validate_auth_key : Str → Check
validate_auth_key auth_key =
    ensure (not (ltb (length auth_key) 16)) (auth_key_too_short (length auth_key))

unfoldable pub validate_port : ℕ → Str → Check
validate_port port context = ensure (not (port == 0)) (zero_port context)

unfoldable pub validate_address : Str → Str → Check
validate_address addr context = ensure (not (is_blank addr)) (empty_address context)

unfoldable pub validate_name : Str → Str → Check
validate_name name context = ensure (not (is_blank name)) (empty_name context)

unfoldable pub validate_rate_limit_config : RateLimitConfig → Check
validate_rate_limit_config config = do
  ensure (not (config.requests_per_second == 0)) zero_requests_per_second
  ensure (not (config.burst_size == 0)) zero_burst_size

unfoldable pub validate_size_limit_config : SizeLimitConfig → Check
validate_size_limit_config config = do
  ensure (not (config.max_request_size == 0)) zero_request_size
  ensure (not (config.max_header_size == 0)) zero_header_size
  ensure (not (ltb config.max_request_size config.max_header_size)) header_above_request

abbrev pub if_set {ℓ} : {A : Type ℓ} → Option A → (A → Check) → Check
if_set none f = ok tt
if_set (some a) f = f a

unfoldable pub is_tls : TransportType → Bool
is_tls tls = true
is_tls _ = false

-- `match (&config.cert_path, &config.key_path)`
unfoldable pub both_or_neither : Option Str → Option Str → Bool
both_or_neither (some cert) (some key) = true
both_or_neither none none = true
both_or_neither _ _ = false

unfoldable pub validate_server_config : ServerConfig → Check
unfolding validate_address validate_auth_key both_or_neither is_tls validate_rate_limit_config
    validate_size_limit_config
validate_server_config config = do
  validate_address config.bind_addr []
  validate_auth_key config.auth_key
  if_set config.stats_addr (λ addr. validate_address addr [])
  ensure (both_or_neither config.cert_path config.key_path) cert_and_key
  ensure (not (config.behind_proxy && is_tls config.transport)) tls_behind_proxy
  ensure (not (config.behind_proxy && (is_some config.cert_path || is_some config.key_path)))
      certificates_behind_proxy
  if_set config.rate_limit validate_rate_limit_config
  if_set config.size_limits validate_size_limit_config

-- The checks that `validate_proxies` makes of one proxy behind the three sets.
unfoldable pub validate_proxy_fields : ProxyConfig → Check
unfolding validate_port validate_address
validate_proxy_fields proxy = do
  validate_port proxy.publish_port proxy.name
  validate_port proxy.local_port proxy.name
  validate_address proxy.publish_addr proxy.name

unfoldable pub validate_proxies_from : List Str → List (Str × ℕ) → List ℕ → List ProxyConfig → Check
unfolding validate_name validate_proxy_fields
validate_proxies_from names binds ports [] = ok tt
validate_proxies_from names binds ports (proxy ∷ proxies) =
    let bind : Str × ℕ = (proxy.publish_addr, proxy.publish_port) in
    let rest =
      validate_proxies_from (proxy.name ∷ names) (bind ∷ binds) (proxy.local_port ∷ ports)
        proxies in
    do
      validate_name proxy.name proxy.name
      ensure (not (contains proxy.name names)) (duplicate_name proxy.name)
      ensure (not (contains bind binds)) (duplicate_binding proxy.publish_addr proxy.publish_port)
      ensure (not (contains proxy.local_port ports)) (duplicate_local_port proxy.local_port)
      validate_proxy_fields proxy
      rest

unfoldable pub validate_proxies : List ProxyConfig → Check
unfolding validate_proxies_from
validate_proxies proxies = validate_proxies_from [] [] [] proxies

unfoldable pub validate_visitor_fields : VisitorConfig → Check
unfolding validate_port validate_address
validate_visitor_fields visitor = do
  validate_port visitor.bind_port visitor.name
  validate_port visitor.publish_port visitor.name
  validate_address visitor.bind_addr visitor.name

unfoldable pub validate_visitors_from : List Str → List (Str × ℕ) → List VisitorConfig → Check
unfolding validate_name validate_visitor_fields
validate_visitors_from names binds [] = ok tt
validate_visitors_from names binds (visitor ∷ visitors) =
    let bind : Str × ℕ = (visitor.bind_addr, visitor.bind_port) in
    let rest = validate_visitors_from (visitor.name ∷ names) (bind ∷ binds) visitors in
    do
      validate_name visitor.name visitor.name
      ensure (not (contains visitor.name names)) (duplicate_name visitor.name)
      ensure (not (contains bind binds)) (duplicate_binding visitor.bind_addr visitor.bind_port)
      validate_visitor_fields visitor
      rest

unfoldable pub validate_visitors : List VisitorConfig → Check
unfolding validate_visitors_from
validate_visitors visitors = validate_visitors_from [] [] visitors

unfoldable pub validate_forwarder_fields : ForwarderConfig → Check
unfolding validate_port validate_address
validate_forwarder_fields forwarder = do
  validate_port forwarder.bind_port forwarder.name
  validate_address forwarder.bind_addr forwarder.name

-- `check_forwarder_security` between the sets and the fields only warns.
unfoldable pub validate_forwarders_from : List Str → List (Str × ℕ) → List ForwarderConfig → Check
unfolding validate_name validate_forwarder_fields
validate_forwarders_from names binds [] = ok tt
validate_forwarders_from names binds (forwarder ∷ forwarders) =
    let bind : Str × ℕ = (forwarder.bind_addr, forwarder.bind_port) in
    let rest = validate_forwarders_from (forwarder.name ∷ names) (bind ∷ binds) forwarders in
    do
      validate_name forwarder.name forwarder.name
      ensure (not (contains forwarder.name names)) (duplicate_name forwarder.name)
      ensure (not (contains bind binds)) (duplicate_binding forwarder.bind_addr forwarder.bind_port)
      validate_forwarder_fields forwarder
      rest

unfoldable pub validate_forwarders : List ForwarderConfig → Check
unfolding validate_forwarders_from
validate_forwarders forwarders = validate_forwarders_from [] [] forwarders

abbrev pub is_empty {ℓ} : {A : Type ℓ} → List A → Bool
is_empty [] = true
is_empty (x ∷ xs) = false

unfoldable pub validate_client_full_config : ClientFullConfig → Check
validate_client_full_config config = do
  validate_auth_key config.client.auth_key
  ensure (not (is_empty config.proxies && is_empty config.visitors && is_empty config.forwarders))
      nothing_defined
  validate_proxies config.proxies
  validate_visitors config.visitors
  validate_forwarders config.forwarders
