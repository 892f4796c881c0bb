-- ===== src/Transport/Tunnel.antt =====
-- How the two ends of src/transport/http2.rs set up a tunnel: `connect` and `accept`.
use tls_tunnel.Prelude.{
  ◌≡◌, ◌↔◌, ◌⊎◌, inl, inr, refl, ap, sym, ◌∙◌, if_both, Bool, true, false, not, ◌||◌, Option, none,
  some, if◌then◌else◌, Outcome, ok, err, arith,
}

pub data Status : Type 0 where
  status_ok method_not_allowed : Status

-- What the first stream of a connection is: a request, with the method CONNECT or another.
pub data FirstStream : Type 0 where
  request : (is_connect : Bool) → FirstStream
  stream_failed connection_closed : FirstStream

-- How the server's steps go: TCP, TLS when the server ends it, HTTP/2, and sending the response.
pub record Arrival : Type 0 where
  pub tcp_accepted : Bool
  pub tls_done : Bool
  pub http2_done : Bool
  pub first : FirstStream
  pub response_sent : Bool

pub data AcceptError : Type 0 where
  accept_tcp accept_tls accept_http2 accept_stream no_request not_connect accept_response :
      AcceptError

pub record Http2TransportServer : Type 0 where
  pub has_acceptor : Bool

unfoldable pub bind : Bool → Bool → Option Http2TransportServer
bind bound behind_proxy = if bound then some (record { has_acceptor = not behind_proxy }) else none

-- The response that the client gets, and whether the server has a stream.
unfoldable pub answer : FirstStream → Bool → Option Status × Outcome AcceptError (Unit {0})
answer (request true) true = (some status_ok, ok tt)
answer (request true) false = (none, err accept_response)
answer (request false) true = (some method_not_allowed, err not_connect)
answer (request false) false = (none, err accept_response)
answer stream_failed response_sent = (none, err accept_stream)
answer connection_closed response_sent = (none, err no_request)

unfoldable pub accept :
    Http2TransportServer → Arrival → Option Status × Outcome AcceptError (Unit {0})
unfolding answer
accept server a =
    if not a.tcp_accepted
    then (none, err accept_tcp)
    else if not (not server.has_acceptor || a.tls_done)
    then (none, err accept_tls)
    else if not a.http2_done
    then (none, err accept_http2)
    else answer a.first a.response_sent

-- How the client's steps go, up to the response.
pub record Dialing : Type 0 where
  pub tcp_connected : Bool
  pub name_valid : Bool
  pub tls_done : Bool
  pub http2_done : Bool
  pub request_built : Bool
  pub sender_ready : Bool
  pub request_sent : Bool
  pub response : Option Status

pub data ConnectError : Type 0 where
  connect_tcp invalid_name connect_tls connect_http2 build_request sender_not_ready : ConnectError
  send_request no_response : ConnectError
  connect_failed : Status → ConnectError

unfoldable pub check_response : Option Status → Outcome ConnectError (Unit {0})
check_response none = err no_response
check_response (some status_ok) = ok tt
check_response (some method_not_allowed) = err (connect_failed method_not_allowed)

unfoldable pub connect : Dialing → Outcome ConnectError (Unit {0})
unfolding check_response
connect d =
    if not d.tcp_connected
    then err connect_tcp
    else if not d.name_valid
    then err invalid_name
    else if not d.tls_done
    then err connect_tls
    else if not d.http2_done
    then err connect_http2
    else if not d.request_built
    then err build_request
    else if not d.sender_ready
    then err sender_not_ready
    else if not d.request_sent
    then err send_request
    else check_response d.response

-- A client whose request gets out.
pub record GetsOut (d : Dialing) : Type 0 where
  pub tcp : d.tcp_connected ≡ true
  pub name : d.name_valid ≡ true
  pub tls : d.tls_done ≡ true
  pub handshake : d.http2_done ≡ true
  pub built : d.request_built ≡ true
  pub ready : d.sender_ready ≡ true
  pub sent : d.request_sent ≡ true

connect-GetsOut : (d : Dialing) → GetsOut d → connect d ≡ check_response d.response
unfolding connect
connect-GetsOut d g = ground (arith, g.tcp, g.name, g.tls, g.handshake, g.built, g.ready, g.sent)

answer_agrees :
    (first : FirstStream) (sent : Bool)
    → (check_response (answer first sent).0 ≡ ok tt) ↔ ((answer first sent).1 ≡ ok tt)
unfolding answer check_response
answer_agrees (request true) true = (λ e. refl, λ e. refl)
answer_agrees (request true) false = (λ e. absurd (cc e), λ e. absurd (cc e))
answer_agrees (request false) true = (λ e. absurd (cc e), λ e. absurd (cc e))
answer_agrees (request false) false = (λ e. absurd (cc e), λ e. absurd (cc e))
answer_agrees stream_failed sent = (λ e. absurd (cc e), λ e. absurd (cc e))
answer_agrees connection_closed sent = (λ e. absurd (cc e), λ e. absurd (cc e))

abbrev Agree : Option Status × Outcome AcceptError (Unit {0}) → Type 0
Agree (response, result) = (check_response response ≡ ok tt) ↔ (result ≡ ok tt)

no_tunnel : {e : AcceptError} → Agree (none, err e)
unfolding check_response
no_tunnel = (λ f. absurd (cc f), λ f. absurd (cc f))

accept_agrees : (server : Http2TransportServer) (a : Arrival) → Agree (accept server a)
unfolding accept
accept_agrees server a = if_both Agree (not a.tcp_accepted) no_tunnel (
    if_both Agree (not (not server.has_acceptor || a.tls_done)) no_tunnel
      (if_both Agree (not a.http2_done) no_tunnel (answer_agrees a.first a.response_sent)))

lost_response : (d : Dialing) → d.response ≡ none → check_response d.response ≡ ok tt → ⊥
unfolding check_response
lost_response d lost e = cc (sym (ap check_response lost) ∙ e)

connect-eq-ok : (d : Dialing) → connect d ≡ ok tt → GetsOut d × (check_response d.response ≡ ok tt)
unfolding connect
connect-eq-ok d e = ground arith

-- Of the two ends the client is never alone with a tunnel: whatever fails at either end, and whether the server's
-- response arrives or is lost on its way, the client has a tunnel exactly if all its steps up to the request went
-- well, the server has the tunnel, and the server's response has arrived.
pub connect-accept :
    (d : Dialing) (server : Http2TransportServer) (a : Arrival)
    → (d.response ≡ (accept server a).0) ⊎ (d.response ≡ none)
    → (connect d ≡ ok tt)
      ↔ (GetsOut d × ((accept server a).1 ≡ ok tt) × (d.response ≡ (accept server a).0))
connect-accept d server a (inl e) = (
  λ c.
      let parts = connect-eq-ok d c in
      (parts.0, (accept_agrees server a).0 (ap check_response (sym e) ∙ parts.1), e),
  λ h. connect-GetsOut d h.0 ∙ ap check_response e ∙ (accept_agrees server a).1 h.1,
)
connect-accept d server a (inr lost) = (
  λ c. absurd (lost_response d lost (connect-eq-ok d c).1),
  λ h. connect-GetsOut d h.0 ∙ ap check_response h.2 ∙ (accept_agrees server a).1 h.1,
)
