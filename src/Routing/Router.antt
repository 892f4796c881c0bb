-- ===== src/Routing/Router.antt =====
-- `GeoIpRouter` of src/client/geoip.rs. The database, its reader, the parsing of networks and of an
-- address, and the name service are parameters.
use tls_tunnel.Prelude.{
  Bool, true, false, not, ◌&&◌, Option, none, some, List, [], ◌∷◌, if◌then◌else◌, Str, contains,
  nat_eq, list_eq, Outcome, ok, err, rsplit_colon,
}
use tls_tunnel.Config.Types.{RoutingStrategy, direct, RoutingConfig}
use tls_tunnel.Config.Validator.{is_empty}
use tls_tunnel.Visitor.Address.{IpAddr}
use tls_tunnel.Routing.Domain.{domain_matches}

abbrev pub Network : Type 0
Network = IpAddr → Bool

-- `lookup_country`: an error, no country, or a code.
abbrev pub Reader : Type 0
Reader = IpAddr → Outcome Str (Option Str)

pub record System : Type 0 where
  pub open_readfile : Str → Option Reader
  pub parse_network : Str → Option Network
  pub parse_ip : Str → Option IpAddr
  pub resolve : Str → Option (List IpAddr)

pub record GeoIpRouter : Type 0 where
  pub reader : Option Reader
  pub config : RoutingConfig
  pub direct_networks : List Network
  pub proxy_networks : List Network

-- A text that is no network is left out.
unfoldable pub parse_networks : (Str → Option Network) → List Str → List Network
parse_networks parse [] = []
parse_networks parse (s ∷ ss) =
    let rest = parse_networks parse ss in
    elim (parse s) [ some network ↦ network ∷ rest | none ↦ rest ]

unfoldable pub load : (Str → Option Reader) → Option Str → Option Reader
load open_ none = none
load open_ (some path) = open_ path

unfoldable pub router_new : System → RoutingConfig → GeoIpRouter
unfolding parse_networks load
router_new sys config = record {
  reader = load sys.open_readfile config.geoip_db;
  config = config;
  direct_networks = parse_networks sys.parse_network config.direct_ips;
  proxy_networks = parse_networks sys.parse_network config.proxy_ips;
}

-- For patterns on which `domain_match` does not panic.
unfoldable pub any_matches : Str → List Str → Bool
any_matches host [] = false
any_matches host (pattern ∷ patterns) =
    let rest = any_matches host patterns in if domain_matches host pattern then true else rest

unfoldable pub match_domain : GeoIpRouter → Str → Option Bool
unfolding any_matches
match_domain r host =
    if any_matches host r.config.direct_domains
    then some true
    else if any_matches host r.config.proxy_domains
    then some false
    else none

unfoldable pub any_contains : List Network → IpAddr → Bool
any_contains [] ip = false
any_contains (network ∷ networks) ip =
    let rest = any_contains networks ip in if network ip then true else rest

unfoldable pub is_direct : RoutingStrategy → Bool
is_direct direct = true
is_direct _ = false

unfoldable pub by_country : RoutingConfig → Str → Bool
unfolding is_direct
by_country config code =
    if contains code config.direct_countries
    then true
    else if not (is_empty config.proxy_countries) && contains code config.proxy_countries
    then false
    else is_direct config.default_strategy

unfoldable pub by_reader : RoutingConfig → Option Reader → IpAddr → Bool
unfolding by_country is_direct
by_reader config none ip = is_direct config.default_strategy
by_reader config (some reader) ip = elim (reader ip) [
  | ok found ↦ elim found [
    | some code ↦ by_country config code
    | none ↦ is_direct config.default_strategy
  ]
  | err e ↦ is_direct config.default_strategy
]

unfoldable pub should_direct_connect_ip : GeoIpRouter → IpAddr → Bool
unfolding any_contains by_reader
should_direct_connect_ip r ip =
    if any_contains r.direct_networks ip
    then true
    else if any_contains r.proxy_networks ip
    then false
    else by_reader r.config r.reader ip

unfoldable pub any_direct : GeoIpRouter → List IpAddr → Bool
unfolding should_direct_connect_ip
any_direct r [] = false
any_direct r (ip ∷ ips) =
    let rest = any_direct r ips in if should_direct_connect_ip r ip then true else rest

-- The text in front of the last colon.
unfoldable pub host_of : Str → Str
unfolding rsplit_colon
host_of target = elim (rsplit_colon target) [ some parts ↦ parts.0 | none ↦ target ]

-- From the second step on, for a host that no domain rule matched.
unfoldable pub by_address : System → GeoIpRouter → Str → Bool
unfolding should_direct_connect_ip any_direct is_direct
by_address sys r host = elim (sys.parse_ip host) [
  | some ip ↦ should_direct_connect_ip r ip
  | none ↦ elim (sys.resolve host) [
    | some ips ↦ if any_direct r ips then true else is_direct r.config.default_strategy
    | none ↦ is_direct r.config.default_strategy
  ]
]

unfoldable pub should_direct_connect : System → GeoIpRouter → Str → Bool
unfolding host_of match_domain by_address
should_direct_connect sys r target = elim (match_domain r (host_of target)) [
  | some should_direct ↦ should_direct
  | none ↦ by_address sys r (host_of target)
]
