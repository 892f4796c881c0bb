-- ===== src/Config/Tests.antt =====
-- The validation of src/config/validator.rs on small configurations.
use tls_tunnel.Prelude.{◌≡◌, ◌↔◌, refl, true, false, none, some, [], ◌∷◌, codes, is_blank, ok, err}
use tls_tunnel.Config.Types.{
  tcp, ssh, socks5_proxy, ProxyConfig, VisitorConfig, ForwarderConfig, tls, http2_transport,
  default_rate_limit, default_size_limit, ServerConfig, ClientConfig, ClientFullConfig,
}
use tls_tunnel.Config.Validator.{
  duplicate_local_port, tls_behind_proxy, validate_auth_key, validate_proxies, validate_visitors,
  validate_forwarders, validate_client_full_config, validate_server_config,
}
use tls_tunnel.Config.Validity.{ClientIsValid, ServerIsValid}
use tls_tunnel.Config.Soundness.{validate_client_full_config_iff, validate_server_config_iff}

abbrev web : ProxyConfig
web = record {
  name = codes "web";
  proxy_type = tcp;
  publish_addr = codes "0.0.0.0";
  publish_port = 8080;
  local_port = 80;
}

abbrev shell : ProxyConfig
shell = record web { name = codes "shell"; proxy_type = ssh; publish_port = 2222; local_port = 22 }

abbrev far_web : VisitorConfig
far_web = record {
  name = codes "web";
  proxy_type = tcp;
  bind_addr = codes "127.0.0.1";
  bind_port = 9000;
  publish_port = 8080;
}

abbrev socks : ForwarderConfig
socks = record {
  name = codes "socks";
  proxy_type = socks5_proxy;
  bind_addr = codes "127.0.0.1";
  bind_port = 1080;
  routing = none;
}

abbrev client : ClientConfig
client = record {
  server_addr = codes "example.com";
  server_port = 443;
  server_path = codes "/";
  transport = tls;
  skip_verify = false;
  ca_cert_path = none;
  auth_key = codes "0123456789abcdef";
  stats_port = none;
  stats_addr = none;
}

abbrev full : ClientFullConfig
full = record {
  client = client;
  proxies = web ∷ shell ∷ [];
  visitors = far_web ∷ [];
  forwarders = socks ∷ [];
}

abbrev server : ServerConfig
server = record {
  bind_addr = codes "0.0.0.0";
  bind_port = 443;
  transport = http2_transport;
  behind_proxy = true;
  cert_path = none;
  key_path = none;
  auth_key = codes "0123456789abcdef";
  stats_port = none;
  stats_addr = none;
  allow_forward = true;
  rate_limit = some default_rate_limit;
  size_limits = some default_size_limit;
}

accepts_full : validate_client_full_config full ≡ ok tt
unfolding validate_client_full_config validate_auth_key validate_proxies validate_visitors
    validate_forwarders is_blank
accepts_full = refl

same_port_twice :
    validate_proxies (web ∷ record shell { local_port = 80 } ∷ []) ≡ err (duplicate_local_port 80)
unfolding validate_proxies is_blank
same_port_twice = refl

tls_needs_no_proxy :
    validate_server_config (record server { transport = tls }) ≡ err tls_behind_proxy
unfolding validate_server_config is_blank
tls_needs_no_proxy = refl

validate_client_full_config_iff_example :
    (validate_client_full_config full ≡ ok tt) ↔ ClientIsValid full
validate_client_full_config_iff_example = validate_client_full_config_iff full

validate_server_config_iff_example : (validate_server_config server ≡ ok tt) ↔ ServerIsValid server
validate_server_config_iff_example = validate_server_config_iff server
