-- ===== src/ClientSession/Tokens.antt =====
-- How many answers of a kind a channel of src/client/control_channel.rs can still give: what waits for a
-- response, and the events that wait for the event loop.
use tls_tunnel.Prelude.{
  ℕ, zero, suc, ◌+◌, ◌≤◌, ◌≡◌, ◌⊎◌, refl, ap, subst, Bool, true, false, Option, none, some, List,
  [], ◌∷◌, ◌++◌, Str, arith, Table, lookup, insert, remove, nat_eq, ◌==◌, Option-cases, Bool-cases,
  inl, inr, length,
}
use tls_tunnel.Control.Framing.{Frame, closed, truncated, too_large, message, read_frame}
use tls_tunnel.ClientSession.Channel.{
  ControlEvent, authentication_success, authentication_failed, config_accepted,
  config_partially_rejected, config_rejected, connection_closed, Waiter, for_authentication,
  for_config, ClientControlChannel, raise, Json, JsonRpcResponse, on_response, rejected_proxies,
  answer, id_of, handle_response, timeout_event, time_out, send_request, Reading, as_request,
  on_frame, read_loop, read_message,
}

-- The waiting tasks and the events of a kind, as weights.
pub record Kind : Type 0 where
  pub of_waiter : Waiter → ℕ
  pub of_event : ControlEvent → ℕ

abbrev authentication_waiter : Waiter → ℕ
authentication_waiter for_authentication = 1
authentication_waiter for_config = 0

abbrev authentication_event : ControlEvent → ℕ
authentication_event (authentication_success client_id) = 1
authentication_event (authentication_failed reason) = 1
authentication_event config_accepted = 0
authentication_event (config_partially_rejected rejected) = 0
authentication_event (config_rejected rejected) = 0
authentication_event connection_closed = 0

abbrev config_waiter : Waiter → ℕ
config_waiter for_authentication = 0
config_waiter for_config = 1

abbrev config_event : ControlEvent → ℕ
config_event (authentication_success client_id) = 0
config_event (authentication_failed reason) = 0
config_event config_accepted = 1
config_event (config_partially_rejected rejected) = 1
config_event (config_rejected rejected) = 1
config_event connection_closed = 0

abbrev pub authentication : Kind
authentication = record { of_waiter = authentication_waiter; of_event = authentication_event }

abbrev pub configuration : Kind
configuration = record { of_waiter = config_waiter; of_event = config_event }

module _ (k : Kind) where
  abbrev pub waiting : Table ℕ Waiter → ℕ
  waiting [] = 0
  waiting ((id, w) ∷ pending) = k.of_waiter w + waiting pending

  abbrev pub raised : List ControlEvent → ℕ
  raised [] = 0
  raised (e ∷ events) = k.of_event e + raised events

  abbrev pub tokens : ClientControlChannel → ℕ
  tokens c = waiting c.pending_requests + raised c.events

  abbrev raised_by : Option ControlEvent → ℕ
  raised_by none = 0
  raised_by (some e) = k.of_event e

  remove-waiting :
      (id : ℕ) (pending : Table ℕ Waiter) → waiting (remove id pending) ≤ waiting pending
  unfolding remove
  remove-waiting id [] = omega arith
  remove-waiting id ((j, w) ∷ pending) = ground (arith, remove-waiting id pending)

  lookup-waiting :
      (id : ℕ) (w : Waiter) (pending : Table ℕ Waiter)
      → lookup id pending ≡ some w
      → waiting (remove id pending) + k.of_waiter w ≤ waiting pending
  unfolding lookup remove
  lookup-waiting id w [] h = absurd cc
  lookup-waiting id w ((j, v) ∷ pending) h = elim (Bool-cases (j == id)) [
    | inl here ↦ ground (arith, here, h, remove-waiting id pending)
    | inr there ↦ ground (arith, there, h, lookup-waiting id w pending (ground (arith, there, h)))
  ]

  insert-waiting :
      (id : ℕ) (w : Waiter) (pending : Table ℕ Waiter)
      → waiting (insert id w pending) ≤ waiting pending + k.of_waiter w
  unfolding insert
  insert-waiting id w [] = omega arith
  insert-waiting id w ((j, v) ∷ pending) = ground (arith, insert-waiting id w pending)

  raised-append : (es fs : List ControlEvent) → raised (es ++ fs) ≡ raised es + raised fs
  raised-append [] fs = omega arith
  raised-append (e ∷ es) fs = omega (arith, raised-append es fs)

  raise-tokens :
      (o : Option ControlEvent) (c : ClientControlChannel)
      → tokens (raise o c) ≡ tokens c + raised_by o
  raise-tokens none c = omega arith
  raise-tokens (some e) c = omega (arith, raised-append c.events (e ∷ []))

  pub send_request-tokens :
      (w : Waiter) (text : Str) (written : Bool) (c : ClientControlChannel)
      → tokens (send_request w text written c).0 ≤ tokens c + k.of_waiter w
  send_request-tokens w text true c =
      omega (arith, insert-waiting c.request_id w c.pending_requests)
  send_request-tokens w text false c = omega arith

  module _ {Value : Type 0} (json : Json Value) where
    -- A waiting task raises at most one event, of its own kind.
    pub record Fits : Type 0 where
      pub answered :
          (w : Waiter) (r : JsonRpcResponse Value)
          → raised_by (on_response json w r) ≤ k.of_waiter w
      pub expired : (w : Waiter) → k.of_event (timeout_event w) ≤ k.of_waiter w

    answer-tokens :
        (c : ClientControlChannel) (id : ℕ) (r : JsonRpcResponse Value)
        → Fits
        → tokens (answer json c id r) ≤ tokens c
    unfolding answer
    answer-tokens c id r fits = elim (Option-cases (lookup id c.pending_requests)) [
      | inl unknown ↦ ground (arith, unknown)
      | inr (w, found) ↦
          let fewer = lookup-waiting id w c.pending_requests found in
          let said =
            raise-tokens (on_response json w r)
              (record c { pending_requests = remove id c.pending_requests }) in
          rw (found, answer) (omega (arith, fewer, said, fits.answered w r))
    ]

    pub handle_response-tokens :
        (c : ClientControlChannel) (r : JsonRpcResponse Value)
        → Fits
        → tokens (handle_response json c r) ≤ tokens c
    unfolding handle_response
    handle_response-tokens c r fits = elim (Option-cases (json.as_number r.id)) [
      | inl other ↦ rw (other, handle_response) (omega arith)
      | inr (n, is) ↦ rw (is, handle_response) (answer-tokens c (id_of n) r fits)
    ]

    pub time_out-tokens :
        (c : ClientControlChannel) (id : ℕ) → Fits → tokens (time_out c id) ≤ tokens c
    unfolding time_out
    time_out-tokens c id fits = elim (Option-cases (lookup id c.pending_requests)) [
      | inl unknown ↦ ground (arith, unknown)
      | inr (w, found) ↦
          let fewer = lookup-waiting id w c.pending_requests found in
          let said = raised-append c.events (timeout_event w ∷ []) in
          rw (found, time_out) (omega (arith, fewer, said, fits.expired w))
    ]

    as_request-channel :
        (c : ClientControlChannel) (body rest : Str) → (as_request json c body rest).channel ≡ c
    unfolding as_request
    as_request-channel c body rest = ground arith

    abbrev NoMore : ClientControlChannel → Reading json ⊎ (ClientControlChannel × Str) → Type 0
    NoMore c (inl reading) = tokens reading.channel ≤ tokens c
    NoMore c (inr more) = tokens more.0 ≤ tokens c

    on_frame-tokens :
        (c : ClientControlChannel) (input : Str) (f : Frame)
        → Fits
        → NoMore c (on_frame json c input f)
    unfolding on_frame
    on_frame-tokens c input closed fits = omega arith
    on_frame-tokens c input truncated fits = omega arith
    on_frame-tokens c input (too_large n) fits = omega arith
    on_frame-tokens c input (message body rest) fits = elim (Option-cases (json.response body)) [
      | inl other ↦ rw (other, on_frame) (omega (arith, ap tokens (as_request-channel c body rest)))
      | inr (r, is) ↦ rw (is, on_frame) (handle_response-tokens c r fits)
    ]

    either :
        (o : Reading json ⊎ (ClientControlChannel × Str))
        → ((r : Reading json) × (o ≡ inl r)) ⊎ ((m : ClientControlChannel × Str) × (o ≡ inr m))
    either (inl r) = inl (r, refl)
    either (inr m) = inr (m, refl)

    read_loop-tokens :
        (fuel : ℕ) (c : ClientControlChannel) (input : Str)
        → Fits
        → tokens (read_loop json fuel c input).channel ≤ tokens c
    unfolding read_loop
    read_loop-tokens zero c input fits = omega arith
    read_loop-tokens (suc fuel) c input fits =
        let step = on_frame-tokens c input (read_frame input) fits in
        elim (either (on_frame json c input (read_frame input))) [
          | inl (r, is) ↦ rw (is, read_loop) (subst (NoMore c) is step)
          | inr (m, is) ↦
              let smaller : tokens m.0 ≤ tokens c = subst (NoMore c) is step in
              rw (is, read_loop) (omega (arith, smaller, read_loop-tokens fuel m.0 m.1 fits))
        ]

    pub read_message-tokens :
        (c : ClientControlChannel) (input : Str)
        → Fits
        → tokens (read_message json c input).channel ≤ tokens c
    unfolding read_message
    read_message-tokens c input fits = read_loop-tokens (suc (length input)) c input fits

module _ {Value : Type 0} (json : Json Value) where
  pub authentication-Fits : Fits authentication json
  unfolding on_response rejected_proxies
  authentication-Fits = record {
    answered = λ w r. answered_once w r;
    expired = λ w. expired_once w;
  }
    where
      answered_once :
          (w : Waiter) (r : JsonRpcResponse Value)
          → raised_by authentication (on_response json w r) ≤ authentication_waiter w
      answered_once for_authentication r = ground arith
      answered_once for_config r = ground arith

      expired_once : (w : Waiter) → authentication_event (timeout_event w) ≤ authentication_waiter w
      expired_once for_authentication = omega arith
      expired_once for_config = omega arith

  pub configuration-Fits : Fits configuration json
  unfolding on_response rejected_proxies
  configuration-Fits = record { answered = λ w r. answered_once w r; expired = λ w. expired_once w }
    where
      answered_once :
          (w : Waiter) (r : JsonRpcResponse Value)
          → raised_by configuration (on_response json w r) ≤ config_waiter w
      answered_once for_authentication r = ground arith
      answered_once for_config r = ground arith

      expired_once : (w : Waiter) → config_event (timeout_event w) ≤ config_waiter w
      expired_once for_authentication = omega arith
      expired_once for_config = omega arith
