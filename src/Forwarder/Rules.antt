-- ===== src/Forwarder/Rules.antt =====
-- Which target a forwarder of src/client/forwarder.rs connects to itself, and what its router decides.
use tls_tunnel.Prelude.{
  ℕ, ◌≡◌, ◌⊎◌, inl, inr, refl, true, false, not, Option, none, some, Str, Outcome, ok, err, if_both,
  if_cases,
}
use tls_tunnel.Config.Types.{ForwarderConfig}
use tls_tunnel.Routing.Router.{GeoIpRouter}
use tls_tunnel.Visitor.Client.{
  Confirmation, accepted, rejected, no_confirmation, read_confirmation, forward_request,
}
use tls_tunnel.Forwarder.Cache.{ConnectionPool, DialError, get_or_create}
use tls_tunnel.Forwarder.Targets.{is_blacklisted}
use tls_tunnel.Forwarder.Handling.{
  ForwardError, Surroundings, Shared, Handled, Route, tunnel, direct_request, Parsed, parse_route,
  on_tracker, send_request, handle_request, connect_direct, handle_direct_connection,
  after_confirmation, forward_to_server, goes_direct, handle_tunnel, handle_route,
  handle_forwarder_connection,
}
use tls_tunnel.Client.Tracker.{connection_started}

module _ (router : Option GeoIpRouter) (env : Surroundings) (s : Shared) where
  -- Why the handler may connect to a target itself: it is not blacklisted, and it is that of a tunnel which the
  -- router wants direct, or that of a plain request.
  abbrev pub MayConnect : Outcome ForwardError Route → Str → Type 0
  MayConnect route target =
      (is_blacklisted s.targets target env.now ≡ false)
      × (((route ≡ ok (tunnel target)) × (goes_direct env router target ≡ true))
          ⊎ ((request : Str) × (route ≡ ok (direct_request target request))))

  -- Why it may ask the server for a target.
  abbrev pub MayAsk : Outcome ForwardError Route → Str → Type 0
  MayAsk route target =
      (is_blacklisted s.targets target env.now ≡ false)
      × (route ≡ ok (tunnel target))
      × (goes_direct env router target ≡ false)

  -- The handler connects to at most one target, or asks the server for one, and may do so.
  abbrev pub Obeys : Outcome ForwardError Route → Handled → Type 0
  Obeys route o =
      ((o.dialled ≡ none) × (o.requested ≡ none))
      ⊎ ((target : Str) × (o.dialled ≡ some target) × MayConnect route target)
      ⊎ ((target : Str) × (o.dialled ≡ none)
          × (o.requested ≡ some (forward_request target))
          × MayAsk route target)

  abbrev Nothing : Handled → Type 0
  Nothing o = (o.dialled ≡ none) × (o.requested ≡ none)

  send_request-dialled :
      (target request : Str) (got : ConnectionPool × Outcome DialError ℕ)
      → (send_request env s target request got).dialled ≡ some target
  unfolding send_request
  send_request-dialled target request (cache, err e) = refl
  send_request-dialled target request (cache, ok stream) =
      if_both (λ (o : Handled). o.dialled ≡ some target) (not env.request_written) refl refl

  connect_direct-dialled :
      (target : Str) (got : ConnectionPool × Outcome DialError ℕ)
      → (connect_direct env s target got).dialled ≡ some target
  unfolding connect_direct
  connect_direct-dialled target (cache, err e) = refl
  connect_direct-dialled target (cache, ok stream) = refl

  after_confirmation-asks :
      (forwarder : ForwarderConfig) (target : Str) (c : Confirmation)
      → ((after_confirmation forwarder env s target c).dialled ≡ none)
        × ((after_confirmation forwarder env s target c).requested ≡ some (forward_request target))
  unfolding after_confirmation
  after_confirmation-asks forwarder target accepted = (refl, refl)
  after_confirmation-asks forwarder target (rejected message) = (refl, refl)
  after_confirmation-asks forwarder target no_confirmation = (refl, refl)

  handle_tunnel-Obeys :
      (forwarder : ForwarderConfig) (target : Str)
      → Obeys (ok (tunnel target)) (handle_tunnel forwarder router env s target)
  unfolding handle_tunnel handle_direct_connection forward_to_server
  handle_tunnel-Obeys forwarder target =
      let P = Obeys (ok (tunnel target)) in
      let got = get_or_create s.cache target env.now env.alive env.dial in
      let asked = after_confirmation-asks forwarder target (read_confirmation env.server_reply) in
      if_cases P (is_blacklisted s.targets target env.now) (λ listed. inl (refl, refl))
        (λ unlisted.
          if_cases P (goes_direct env router target)
            (λ direct.
              inr (inl (target, connect_direct-dialled target got, (unlisted, inl (refl, direct)))))
            (λ proxied. if_both P (not env.stream_opened) (inl (refl, refl)) (
              if_both P (not env.server_written) (inl (refl, refl))
                (inr (inr (target, asked.0, asked.1, (unlisted, refl, proxied)))))))

  handle_request-Obeys :
      (target request : Str)
      → Obeys (ok (direct_request target request)) (handle_request env s target request)
  unfolding handle_request
  handle_request-Obeys target request =
      let got = get_or_create s.cache target env.now env.alive env.dial in
      if_cases (Obeys (ok (direct_request target request)))
        (is_blacklisted s.targets target env.now) (λ listed. inl (refl, refl))
        (λ unlisted.
          inr (
            inl (target, send_request-dialled target request got, (unlisted, inr (request, refl)))))

  handle_route-Obeys :
      (forwarder : ForwarderConfig) (p : Parsed) → Obeys p.1 (handle_route forwarder router env s p)
  unfolding handle_route
  handle_route-Obeys forwarder (replies, err e) = inl (refl, refl)
  handle_route-Obeys forwarder (replies, ok (tunnel target)) = handle_tunnel-Obeys forwarder target
  handle_route-Obeys forwarder (replies, ok (direct_request target request)) =
      handle_request-Obeys target request

-- A forwarder connects to a target itself only if no failure keeps it from the target and the router wants it
-- direct, or the request is not CONNECT; it asks the server only for one that the router does not want direct.
pub handle_forwarder_connection-Obeys :
    (forwarder : ForwarderConfig) (router : Option GeoIpRouter) (env : Surroundings) (s : Shared)
    → Obeys router env s
        (parse_route forwarder.proxy_type env).1
        (handle_forwarder_connection forwarder router env s)
unfolding handle_forwarder_connection
handle_forwarder_connection-Obeys forwarder router env s =
    handle_route-Obeys router env (on_tracker connection_started s) forwarder
      (parse_route forwarder.proxy_type env)

handle_route-unrouted :
    (forwarder : ForwarderConfig) (router other : Option GeoIpRouter) (env : Surroundings)
    (s : Shared) (target request : Str) (p : Parsed)
    → p.1 ≡ ok (direct_request target request)
    → handle_route forwarder router env s p ≡ handle_route forwarder other env s p
unfolding handle_route
handle_route-unrouted forwarder router other env s target request (replies, err e) h = absurd (cc h)
handle_route-unrouted forwarder router other env s target request (replies, ok (tunnel t)) h =
    absurd (cc h)
handle_route-unrouted forwarder router other env s target request (replies, ok (direct_request t r))
      h =
    refl

-- A request of an HTTP forwarder that is not CONNECT is treated alike whatever the router says.
pub plain_request-unrouted :
    (forwarder : ForwarderConfig) (router other : Option GeoIpRouter) (env : Surroundings)
    (s : Shared) (target request : Str)
    → (parse_route forwarder.proxy_type env).1 ≡ ok (direct_request target request)
    → handle_forwarder_connection forwarder router env s
      ≡ handle_forwarder_connection forwarder other env s
unfolding handle_forwarder_connection
plain_request-unrouted forwarder router other env s target request h =
    handle_route-unrouted forwarder router other env (on_tracker connection_started s) target
      request (parse_route forwarder.proxy_type env) h
