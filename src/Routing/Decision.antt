-- ===== src/Routing/Decision.antt =====
-- The decisions of src/client/geoip.rs as ordered rules, and what a name that has to be resolved changes.
use tls_tunnel.Prelude.{
  ◌≡◌, refl, ap, sym, ◌∙◌, Bool, true, false, not, ◌&&◌, Option, none, some, List, [], ◌∷◌, ◌++◌,
  map, if◌then◌else◌, if_cases, inl, inr, Str, Outcome-cases, Option-cases, append_assoc, contains,
  nat_eq, list_eq, ok, err, arith,
}
use tls_tunnel.Config.Types.{RoutingConfig}
use tls_tunnel.Config.Validator.{is_empty}
use tls_tunnel.Visitor.Address.{IpAddr}
use tls_tunnel.Routing.Domain.{domain_matches}
use tls_tunnel.Routing.Router.{
  Network, Reader, System, GeoIpRouter, any_matches, match_domain, any_contains, is_direct,
  by_country, by_reader, should_direct_connect_ip, any_direct, host_of, by_address,
  should_direct_connect,
}

-- A rule is whether it applies, and whether it connects directly.
abbrev pub Rule : Type 0
Rule = Bool × Bool

-- The first rule that applies decides.
abbrev pub first : List Rule → Bool → Bool
first [] default_ = default_
first ((applies, verdict) ∷ rules) default_ = if applies then verdict else first rules default_

abbrev pub domain_rules : GeoIpRouter → Str → List Rule
domain_rules r host =
    map (λ p. (domain_matches host p, true)) r.config.direct_domains
    ++ map (λ p. (domain_matches host p, false)) r.config.proxy_domains

abbrev pub country_rules : RoutingConfig → Option Reader → IpAddr → List Rule
country_rules config none ip = []
country_rules config (some reader) ip = elim (reader ip) [
  | ok found ↦ elim found [
    | some code ↦
        (contains code config.direct_countries, true)
        ∷ (contains code config.proxy_countries, false)
        ∷ []
    | none ↦ []
  ]
  | err e ↦ []
]

abbrev pub address_rules : GeoIpRouter → IpAddr → List Rule
address_rules r ip =
    map (λ (n : Network). (n ip, true)) r.direct_networks
    ++ (map (λ (n : Network). (n ip, false)) r.proxy_networks ++ country_rules r.config r.reader ip)

first-networks :
    (networks : List Network) (ip : IpAddr) (verdict default_ : Bool) (rules : List Rule)
    → first (map (λ (n : Network). (n ip, verdict)) networks ++ rules) default_
      ≡ (if any_contains networks ip then verdict else first rules default_)
unfolding any_contains
first-networks [] ip verdict default_ rules = refl
first-networks (n ∷ ns) ip verdict default_ rules =
    ground (arith, first-networks ns ip verdict default_ rules)

first-domains :
    (patterns : List Str) (host : Str) (verdict default_ : Bool) (rules : List Rule)
    → first (map (λ p. (domain_matches host p, verdict)) patterns ++ rules) default_
      ≡ (if any_matches host patterns then verdict else first rules default_)
unfolding any_matches
first-domains [] host verdict default_ rules = refl
first-domains (p ∷ ps) host verdict default_ rules =
    ground (arith, first-domains ps host verdict default_ rules)

proxied :
    (code : Str) (codes : List Str) (default_ : Bool)
    → (if not (is_empty codes) && contains code codes then false else default_)
      ≡ (if contains code codes then false else default_)
proxied code [] default_ = refl
proxied code (c ∷ cs) default_ = refl

by_country-first :
    (config : RoutingConfig) (code : Str)
    → by_country config code
      ≡ first
          ((contains code config.direct_countries, true)
            ∷ (contains code config.proxy_countries, false)
            ∷ [])
          (is_direct config.default_strategy)
unfolding by_country
by_country-first config code =
    ap (λ b. if contains code config.direct_countries then true else b)
      (proxied code config.proxy_countries (is_direct config.default_strategy))

by_reader-first :
    (config : RoutingConfig) (reader : Option Reader) (ip : IpAddr)
    → by_reader config reader ip
      ≡ first (country_rules config reader ip) (is_direct config.default_strategy)
unfolding by_reader
by_reader-first config none ip = refl
by_reader-first config (some reader) ip = elim (Outcome-cases (reader ip)) [
  | inl (e, failed) ↦ rw (failed, by_reader) refl
  | inr (found, done) ↦ elim (Option-cases found) [
    | inl unknown ↦ rw (done, unknown, by_reader) refl
    | inr (code, known) ↦ rw (done, known, by_reader) (by_country-first config code)
  ]
]

-- An address is connected to directly or not by the first rule that applies: the direct networks, the
-- proxied networks, the direct countries, the proxied countries, and then the default.
pub should_direct_connect_ip-first :
    (r : GeoIpRouter) (ip : IpAddr)
    → should_direct_connect_ip r ip
      ≡ first (address_rules r ip) (is_direct r.config.default_strategy)
unfolding should_direct_connect_ip
should_direct_connect_ip-first r ip =
    let default_ = is_direct r.config.default_strategy in
    let rest = country_rules r.config r.reader ip in
    ap
      (λ b.
        if any_contains r.direct_networks ip
        then true
        else (if any_contains r.proxy_networks ip then false else b))
      (by_reader-first r.config r.reader ip)
    ∙ sym (
        first-networks r.direct_networks ip true default_
          (map (λ (n : Network). (n ip, false)) r.proxy_networks ++ rest)
        ∙ ap (λ b. if any_contains r.direct_networks ip then true else b)
            (first-networks r.proxy_networks ip false default_ rest))

literal :
    (sys : System) (r : GeoIpRouter) (host : Str) (ip : IpAddr)
    → sys.parse_ip host ≡ some ip
    → by_address sys r host ≡ should_direct_connect_ip r ip
unfolding by_address
literal sys r host ip h = rw (h, by_address) refl

matched_first :
    (sys : System) (r : GeoIpRouter) (host : Str) (ip : IpAddr)
    → sys.parse_ip host ≡ some ip
    → (elim (match_domain r host) [
      | some should_direct ↦ should_direct
      | none ↦ by_address sys r host
    ])
      ≡ (if any_matches host r.config.direct_domains
          then true
          else (if any_matches host r.config.proxy_domains
              then false
              else first (address_rules r ip) (is_direct r.config.default_strategy)))
unfolding match_domain
matched_first sys r host ip h =
    ground (arith, literal sys r host ip h, should_direct_connect_ip-first r ip)

-- A target that names an address is decided by the first rule of its host and then of the address.
pub should_direct_connect-first :
    (sys : System) (r : GeoIpRouter) (target : Str) (ip : IpAddr)
    → sys.parse_ip (host_of target) ≡ some ip
    → should_direct_connect sys r target
      ≡ first
          (domain_rules r (host_of target) ++ address_rules r ip)
          (is_direct r.config.default_strategy)
unfolding should_direct_connect
should_direct_connect-first sys r target ip h =
    let host = host_of target in
    let default_ = is_direct r.config.default_strategy in
    let proxies = map (λ p. (domain_matches host p, false)) r.config.proxy_domains in
    matched_first sys r host ip h
    ∙ sym (
        ap (λ l. first l default_)
          (append_assoc (map (λ p. (domain_matches host p, true)) r.config.direct_domains) proxies
            (address_rules r ip))
        ∙ first-domains r.config.direct_domains host true default_ (proxies ++ address_rules r ip)
        ∙ ap (λ b. if any_matches host r.config.direct_domains then true else b)
            (first-domains r.config.proxy_domains host false default_ (address_rules r ip)))

-- A target that names a host which no domain rule matches is connected to directly whenever that is the
-- default, whatever networks and countries of its addresses are to be proxied.
pub should_direct_connect_name :
    (sys : System) (r : GeoIpRouter) (target : Str)
    → match_domain r (host_of target) ≡ none
    → sys.parse_ip (host_of target) ≡ none
    → is_direct r.config.default_strategy ≡ true
    → should_direct_connect sys r target ≡ true
unfolding should_direct_connect by_address
should_direct_connect_name sys r target h k d = elim (Option-cases (sys.resolve (host_of target))) [
  | inl unknown ↦ rw (h, k, unknown, should_direct_connect, by_address) d
  | inr (ips, resolved) ↦
      rw (h, k, resolved, should_direct_connect, by_address)
        (if_cases (λ b. b ≡ true) (any_direct r ips) (λ some_direct. refl) (λ none_direct. d))
]
