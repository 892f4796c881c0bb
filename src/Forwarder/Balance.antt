-- ===== src/Forwarder/Balance.antt =====
-- What a connection through a forwarder of src/client/forwarder.rs does to the count of open connections,
-- and where it may go.
use tls_tunnel.Prelude.{
  ℕ, suc, ◌<◌, ◌≡◌, inl, inr, refl, ap, sym, ◌∙◌, Bool, true, false, not, Option, none, some, Str,
  if◌then◌else◌, Outcome, ok, err, arith, Outcome-cases, if_both, nat_eq, list_eq, codes, ◌==◌,
}
use tls_tunnel.Config.Types.{
  ForwarderConfig, ProxyType, tcp, http11, http2, ssh, http_proxy, socks5_proxy,
}
use tls_tunnel.Routing.Router.{GeoIpRouter}
use tls_tunnel.Stats.Tracker.{fetch_add, fetch_sub, u64_mod}
use tls_tunnel.Visitor.Client.{Confirmation, accepted, rejected, no_confirmation, read_confirmation}
use tls_tunnel.Client.Tracker.{connection_started, connection_ended, update_status}
use tls_tunnel.Forwarder.Cache.{ConnectionPool, DialError, get_or_create}
use tls_tunnel.Forwarder.Targets.{is_blacklisted}
use tls_tunnel.Forwarder.Talk.{TalkError, Connection}
use tls_tunnel.Forwarder.Socks.{parse_socks5}
use tls_tunnel.Forwarder.Http.{
  HttpRequest, handle_http_connect, handle_http_direct, parse_http_request,
}
use tls_tunnel.Forwarder.Handling.{
  ForwardError, http_error, socks_error, dial_error, reply_failed, invalid_proxy_type, blacklisted,
  unsafe_target, request_failed, no_stream, server_write_failed, server_silent, panicked,
  server_rejected, Surroundings, http_route, socks_route, Shared, Handled, tunnel, direct_request,
  Parsed, parse_route, on_tracker, ended, transfer, use_connection, send_request, handle_request,
  connect_direct, handle_direct_connection, after_confirmation, forward_to_server, goes_direct,
  handle_tunnel, handle_route, handle_forwarder_connection,
}

-- The results with which the handler returns by `?`.
abbrev pub returns_early : Outcome ForwardError (Unit {0}) → Bool
returns_early (ok done) = false
returns_early (err (http_error e)) = true
returns_early (err (socks_error e)) = true
returns_early (err (dial_error e)) = false
returns_early (err reply_failed) = true
returns_early (err invalid_proxy_type) = true
returns_early (err blacklisted) = false
returns_early (err unsafe_target) = false
returns_early (err request_failed) = true
returns_early (err no_stream) = true
returns_early (err server_write_failed) = true
returns_early (err server_silent) = true
returns_early (err panicked) = false
returns_early (err (server_rejected message)) = false

-- The count of open connections, if they are counted.
abbrev pub open_connections : Shared → Option ℕ
open_connections s = elim s.tracker [ none ↦ none | some t ↦ some t.active_connections ]

-- A handler that was counted once, as one of `suc n` connections, and has taken itself off the count unless
-- it returned early.
abbrev pub Counts : ℕ → Handled → Type 0
Counts n o = open_connections o.state ≡ some (if returns_early o.result then suc n else n)

-- A request that cannot be read makes the handler return early.
abbrev FailsEarly : Parsed → Type 0
FailsEarly (replies, err e) = returns_early (err e) ≡ true
FailsEarly (replies, ok r) = Unit

module _ (n : ℕ) (bound : suc n < u64_mod) where
  ended-open :
      (s : Shared) → open_connections s ≡ some (suc n) → open_connections (ended s) ≡ some n
  unfolding connection_ended fetch_sub update_status
  ended-open s h = ground (arith, h, bound)

  use_connection-open :
      (env : Surroundings) (target : Str) (stream : ℕ) (s : Shared)
      → open_connections (use_connection env target stream s) ≡ open_connections s
  unfolding use_connection transfer
  use_connection-open env target stream s = ground arith

  send_request-Counts :
      (env : Surroundings) (s : Shared) (target request : Str)
      (got : ConnectionPool × Outcome DialError ℕ)
      → open_connections s ≡ some (suc n)
      → Counts n (send_request env s target request got)
  unfolding send_request
  send_request-Counts env s target request (cache, err e) h = ended-open s h
  send_request-Counts env s target request (cache, ok stream) h =
      if_both (Counts n) (not env.request_written) h (
        ended-open (use_connection env target stream (record s { cache = cache }))
          (use_connection-open env target stream (record s { cache = cache }) ∙ h))

  handle_request-Counts :
      (env : Surroundings) (s : Shared) (target request : Str)
      → open_connections s ≡ some (suc n)
      → Counts n (handle_request env s target request)
  unfolding handle_request
  handle_request-Counts env s target request h =
      if_both (Counts n) (is_blacklisted s.targets target env.now) (ended-open s h) (
        send_request-Counts env s target request
          (get_or_create s.cache target env.now env.alive env.dial) h)

  connect_direct-open :
      (env : Surroundings) (s : Shared) (target : Str) (got : ConnectionPool × Outcome DialError ℕ)
      → open_connections s ≡ some (suc n)
      → (open_connections (connect_direct env s target got).state ≡ some (suc n))
        × (returns_early (connect_direct env s target got).result ≡ false)
  unfolding connect_direct
  connect_direct-open env s target (cache, err e) h = (h, refl)
  connect_direct-open env s target (cache, ok stream) h =
      (use_connection-open env target stream (record s { cache = cache }) ∙ h, refl)

  after_confirmation-Counts :
      (forwarder : ForwarderConfig) (env : Surroundings) (s : Shared) (target : Str)
      (c : Confirmation)
      → open_connections s ≡ some (suc n)
      → Counts n (after_confirmation forwarder env s target c)
  unfolding after_confirmation transfer
  after_confirmation-Counts forwarder env s target accepted h =
      ended-open (on_tracker (transfer env) s) (ground (arith, h))
  after_confirmation-Counts forwarder env s target (rejected message) h = ended-open s h
  after_confirmation-Counts forwarder env s target no_confirmation h = h

  handle_tunnel-Counts :
      (forwarder : ForwarderConfig) (router : Option GeoIpRouter) (env : Surroundings) (s : Shared)
      (target : Str)
      → open_connections s ≡ some (suc n)
      → Counts n (handle_tunnel forwarder router env s target)
  unfolding handle_tunnel handle_direct_connection forward_to_server
  handle_tunnel-Counts forwarder router env s target h =
      let got = get_or_create s.cache target env.now env.alive env.dial in
      let direct = connect_direct-open env s target got h in
      let counted : open_connections (ended (connect_direct env s target got).state) ≡ some n =
        ended-open (connect_direct env s target got).state direct.0 in
      if_both (Counts n) (is_blacklisted s.targets target env.now) (ended-open s h) (
        if_both (Counts n) (goes_direct env router target)
          (counted ∙ ap (λ (b : Bool). some (if b then suc n else n)) (sym direct.1))
          (if_both (Counts n) (not env.stream_opened) h (
            if_both (Counts n) (not env.server_written) h (
              after_confirmation-Counts forwarder env s target (read_confirmation env.server_reply)
                h))))

  handle_route-Counts :
      (forwarder : ForwarderConfig) (router : Option GeoIpRouter) (env : Surroundings) (s : Shared)
      (p : Parsed)
      → open_connections s ≡ some (suc n)
      → FailsEarly p
      → Counts n (handle_route forwarder router env s p)
  unfolding handle_route
  handle_route-Counts forwarder router env s (replies, err f) h early =
      h ∙ ap (λ (b : Bool). some (if b then suc n else n)) (sym early)
  handle_route-Counts forwarder router env s (replies, ok (tunnel target)) h early =
      handle_tunnel-Counts forwarder router env s target h
  handle_route-Counts forwarder router env s (replies, ok (direct_request target request)) h early =
      handle_request-Counts env s target request h

socks_route-FailsEarly : (r : Outcome TalkError Str × Connection) → FailsEarly (socks_route r)
unfolding socks_route
socks_route-FailsEarly (err e, c) = refl
socks_route-FailsEarly (ok target, c) = tt

http_route-FailsEarly : (env : Surroundings) (req : HttpRequest) → FailsEarly (http_route env req)
unfolding http_route
http_route-FailsEarly env req =
    if_both FailsEarly (req.method == codes "CONNECT")
      (elim (Outcome-cases (handle_http_connect req.target)) [
        | inl (e, is) ↦ rw (is, http_route) refl
        | inr (reply, is) ↦ rw (is, http_route) (if_both FailsEarly env.reply_written tt refl)
      ])
      (elim (Outcome-cases (handle_http_direct env.parse_url env.walk req)) [
        | inl (e, is) ↦ rw (is, http_route) refl
        | inr (parts, is) ↦ rw (is, http_route) tt
      ])

parse_route-FailsEarly : (t : ProxyType) (env : Surroundings) → FailsEarly (parse_route t env)
unfolding parse_route
parse_route-FailsEarly http_proxy env =
    elim (Outcome-cases (parse_http_request env.to_lowercase env.http_input).0) [
      | inl (e, is) ↦ rw (is, parse_route) refl
      | inr (req, is) ↦ rw (is, parse_route) (http_route-FailsEarly env req)
    ]
parse_route-FailsEarly socks5_proxy env = socks_route-FailsEarly (parse_socks5 env.socks_input)
parse_route-FailsEarly tcp env = refl
parse_route-FailsEarly http11 env = refl
parse_route-FailsEarly http2 env = refl
parse_route-FailsEarly ssh env = refl

-- A connection through a forwarder with a tracker that shows `n` open connections leaves it with `n`, but with
-- one more where the handler returns by `?`: the request cannot be read or answered, or cannot be written to
-- its target, or the tunnel gives no stream, breaks or stays silent.
pub handle_forwarder_connection-Counts :
    (forwarder : ForwarderConfig) (router : Option GeoIpRouter) (env : Surroundings) (s : Shared)
    (n : ℕ)
    → suc n < u64_mod
    → open_connections s ≡ some n
    → Counts n (handle_forwarder_connection forwarder router env s)
unfolding handle_forwarder_connection connection_started fetch_add update_status
handle_forwarder_connection-Counts forwarder router env s n bound h =
    handle_route-Counts n bound forwarder router env (on_tracker connection_started s)
      (parse_route forwarder.proxy_type env) (ground (arith, h, bound))
      (parse_route-FailsEarly forwarder.proxy_type env)
