-- ===== src/Routing/Tests.antt =====
-- The router of src/client/geoip.rs on small configurations.
use tls_tunnel.Prelude.{
  ◌≡◌, ◌↔◌, ◌⊎◌, refl, true, false, Option, none, some, [], ◌∷◌, ◌++◌, Str, codes, rsplit_colon,
  nat_eq, ◌==◌,
}
use tls_tunnel.Config.Types.{direct, RoutingConfig}
use tls_tunnel.Visitor.Address.{IpAddr, v4, v6}
use tls_tunnel.Routing.Domain.{domain_match, cut_first, domain_matches, IsSuffix, domain_match_iff}
use tls_tunnel.Routing.Router.{
  Network, System, GeoIpRouter, router_new, match_domain, is_direct, host_of, should_direct_connect,
}
use tls_tunnel.Routing.Decision.{first, domain_rules, address_rules, should_direct_connect-first}

abbrev config : RoutingConfig
config = record {
  geoip_db = none;
  direct_countries = [];
  proxy_countries = [];
  direct_ips = [];
  proxy_ips = codes "8.8.8.0/24" ∷ [];
  direct_domains = codes "*.example.com" ∷ [];
  proxy_domains = [];
  default_strategy = direct;
}

abbrev in_eights : Network
in_eights (v4 a b c d) = a == 8
in_eights (v6 s0 s1 s2 s3 s4 s5 s6 s7) = false

-- Hosts that start with a digit are addresses, and every name has the address 8.8.8.8.
abbrev parse : Str → Option IpAddr
parse [] = none
parse (c ∷ s) = elim (c == 56) [ true ↦ some (v4 8 8 8 8) | false ↦ none ]

abbrev sys : System
sys = record {
  open_readfile = λ s. none;
  parse_network = λ s. some in_eights;
  parse_ip = parse;
  resolve = λ s. some (v4 8 8 8 8 ∷ []);
}

abbrev router : GeoIpRouter
router = router_new sys config

domain_match_iff_example :
    ((domain_match (codes "www.google.com") (codes "*." ++ codes "google.com") ≡ some true) ↔ (
      IsSuffix (codes "google.com") (codes "www.google.com")
      ⊎ (cut_first (codes "google.com") ≡ some (codes "www.google.com"))))
    × ((domain_match (codes "www.google.com") (codes "*." ++ codes "google.com") ≡ none) ↔ (
        (¬ IsSuffix (codes "google.com") (codes "www.google.com"))
        × (cut_first (codes "google.com") ≡ none)))
    × ((domain_match (codes "www.google.com") (codes "." ++ codes "google.com") ≡ some true) ↔ (
        IsSuffix (codes "." ++ codes "google.com") (codes "www.google.com")
        ⊎ (codes "www.google.com" ≡ codes "google.com")))
    × ((domain_match (codes "www.google.com") (codes "google.com") ≡ some true)
        ↔ (codes "www.google.com" ≡ codes "google.com"))
domain_match_iff_example =
    domain_match_iff (codes "www.google.com") (codes "google.com") (codes "google.com") refl refl

-- A suffix that starts with a character of two bytes.
panics_on_wide : domain_match (codes "example.com") (codes "*." ++ 0xC3 ∷ 0xA9 ∷ codes ".fr") ≡ none
unfolding domain_match
panics_on_wide = refl

should_direct_connect-first_example :
    should_direct_connect sys router (codes "8.8.8.8:53")
    ≡ first
        (domain_rules router (host_of (codes "8.8.8.8:53")) ++ address_rules router (v4 8 8 8 8))
        (is_direct router.config.default_strategy)
unfolding host_of rsplit_colon
should_direct_connect-first_example =
    should_direct_connect-first sys router (codes "8.8.8.8:53") (v4 8 8 8 8) refl

-- The address that the name above resolves to is proxied when it is named itself.
proxies_the_address : should_direct_connect sys router (codes "8.8.8.8:53") ≡ false
unfolding should_direct_connect host_of rsplit_colon match_domain router_new domain_matches
    is_direct
proxies_the_address = refl
