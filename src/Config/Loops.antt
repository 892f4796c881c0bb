-- ===== src/Config/Loops.antt =====
-- What the loops of src/config/validator.rs check, given what their sets hold.
use tls_tunnel.Prelude.{
  ℕ, ◌≡◌, refl, false, List, [], ◌∷◌, map, All, NewTo, Str, arith, nat_eq, list_eq, pair_eq, ok,
  contains,
}
use tls_tunnel.Config.Types.{ProxyConfig, VisitorConfig, ForwarderConfig}
use tls_tunnel.Config.Validator.{
  validate_proxies_from, validate_visitors_from, validate_forwarders_from,
}
use tls_tunnel.Config.Validity.{
  ProxyIsValid, publish_binding, VisitorIsValid, visitor_binding, ForwarderIsValid,
  forwarder_binding,
}

-- What the loop over proxies has checked, given what its sets hold.
pub record ProxiesFrom (ns : List Str) (bs : List (Str × ℕ)) (ls : List ℕ) (ps : List ProxyConfig)
    : Type 0 where
  pub each : All ProxyIsValid ps
  pub names : NewTo ns (map (λ p. p.name) ps)
  pub binds : NewTo bs (map publish_binding ps)
  pub ports : NewTo ls (map (λ p. p.local_port) ps)

pub ProxiesFrom-sound :
    (names : List Str) (binds : List (Str × ℕ)) (ports : List ℕ) (ps : List ProxyConfig)
    → validate_proxies_from names binds ports ps ≡ ok tt
    → ProxiesFrom names binds ports ps
unfolding validate_proxies_from
ProxiesFrom-sound names binds ports [] h = record { each = tt; names = tt; binds = tt; ports = tt }
ProxiesFrom-sound names binds ports (p ∷ ps) h =
    let step : ProxyIsValid p
        × (contains p.name names ≡ false)
        × (contains (publish_binding p) binds ≡ false)
        × (contains p.local_port ports ≡ false)
        × (validate_proxies_from (p.name ∷ names) (publish_binding p ∷ binds) (p.local_port ∷ ports)
              ps
            ≡ ok tt) =
      ground arith in
    let rest =
      ProxiesFrom-sound (p.name ∷ names) (publish_binding p ∷ binds) (p.local_port ∷ ports) ps
        step.4 in
    record {
      each = (step.0, rest.each);
      names = (step.1, rest.names);
      binds = (step.2, rest.binds);
      ports = (step.3, rest.ports);
    }

pub ProxiesFrom-complete :
    (names : List Str) (binds : List (Str × ℕ)) (ports : List ℕ) (ps : List ProxyConfig)
    → ProxiesFrom names binds ports ps
    → validate_proxies_from names binds ports ps ≡ ok tt
unfolding validate_proxies_from
ProxiesFrom-complete names binds ports [] h = refl
ProxiesFrom-complete names binds ports (p ∷ ps) h = ground (
  arith,
  ProxiesFrom-complete (p.name ∷ names) (publish_binding p ∷ binds) (p.local_port ∷ ports) ps
      (record { each = h.each.1; names = h.names.1; binds = h.binds.1; ports = h.ports.1 }),
)

pub record VisitorsFrom (ns : List Str) (bs : List (Str × ℕ)) (vs : List VisitorConfig)
    : Type 0 where
  pub each : All VisitorIsValid vs
  pub names : NewTo ns (map (λ v. v.name) vs)
  pub binds : NewTo bs (map visitor_binding vs)

pub VisitorsFrom-sound :
    (names : List Str) (binds : List (Str × ℕ)) (vs : List VisitorConfig)
    → validate_visitors_from names binds vs ≡ ok tt
    → VisitorsFrom names binds vs
unfolding validate_visitors_from
VisitorsFrom-sound names binds [] h = record { each = tt; names = tt; binds = tt }
VisitorsFrom-sound names binds (v ∷ vs) h =
    let step : VisitorIsValid v
        × (contains v.name names ≡ false)
        × (contains (visitor_binding v) binds ≡ false)
        × (validate_visitors_from (v.name ∷ names) (visitor_binding v ∷ binds) vs ≡ ok tt) =
      ground arith in
    let rest = VisitorsFrom-sound (v.name ∷ names) (visitor_binding v ∷ binds) vs step.3 in
    record {
      each = (step.0, rest.each);
      names = (step.1, rest.names);
      binds = (step.2, rest.binds);
    }

pub VisitorsFrom-complete :
    (names : List Str) (binds : List (Str × ℕ)) (vs : List VisitorConfig)
    → VisitorsFrom names binds vs
    → validate_visitors_from names binds vs ≡ ok tt
unfolding validate_visitors_from
VisitorsFrom-complete names binds [] h = refl
VisitorsFrom-complete names binds (v ∷ vs) h = ground (
  arith,
  VisitorsFrom-complete (v.name ∷ names) (visitor_binding v ∷ binds) vs
      (record { each = h.each.1; names = h.names.1; binds = h.binds.1 }),
)

pub record ForwardersFrom (ns : List Str) (bs : List (Str × ℕ)) (vs : List ForwarderConfig)
    : Type 0 where
  pub each : All ForwarderIsValid vs
  pub names : NewTo ns (map (λ v. v.name) vs)
  pub binds : NewTo bs (map forwarder_binding vs)

pub ForwardersFrom-sound :
    (names : List Str) (binds : List (Str × ℕ)) (vs : List ForwarderConfig)
    → validate_forwarders_from names binds vs ≡ ok tt
    → ForwardersFrom names binds vs
unfolding validate_forwarders_from
ForwardersFrom-sound names binds [] h = record { each = tt; names = tt; binds = tt }
ForwardersFrom-sound names binds (v ∷ vs) h =
    let step : ForwarderIsValid v
        × (contains v.name names ≡ false)
        × (contains (forwarder_binding v) binds ≡ false)
        × (validate_forwarders_from (v.name ∷ names) (forwarder_binding v ∷ binds) vs ≡ ok tt) =
      ground arith in
    let rest = ForwardersFrom-sound (v.name ∷ names) (forwarder_binding v ∷ binds) vs step.3 in
    record {
      each = (step.0, rest.each);
      names = (step.1, rest.names);
      binds = (step.2, rest.binds);
    }

pub ForwardersFrom-complete :
    (names : List Str) (binds : List (Str × ℕ)) (vs : List ForwarderConfig)
    → ForwardersFrom names binds vs
    → validate_forwarders_from names binds vs ≡ ok tt
unfolding validate_forwarders_from
ForwardersFrom-complete names binds [] h = refl
ForwardersFrom-complete names binds (v ∷ vs) h = ground (
  arith,
  ForwardersFrom-complete (v.name ∷ names) (forwarder_binding v ∷ binds) vs
      (record { each = h.each.1; names = h.names.1; binds = h.binds.1 }),
)
