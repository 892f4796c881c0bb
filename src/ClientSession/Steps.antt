-- ===== src/ClientSession/Steps.antt =====
-- The steps of a session of src/client/mod.rs while it comes up: what passes by, and an answer that arrives.
use tls_tunnel.Prelude.{
  ℕ, ◌+◌, ◌≡◌, refl, ap, ◌∙◌, Bool, true, false, none, some, List, [], ◌∷◌, ◌++◌, Str, arith,
  nat_eq, ◌==◌, lookup, remove, All, if◌then◌else◌,
}
use tls_tunnel.ClientSession.Channel.{
  ControlEvent, authentication_success, Waiter, for_authentication, for_config,
  ClientControlChannel, Json, JsonRpcResponse, config_answer, on_response, answer, handle_response,
}
use tls_tunnel.ClientSession.World.{ClientWorld}
use tls_tunnel.ClientSession.Loop.{
  Session, Event, yamux_error, yamux_closed, control_read, time_is_up, event_stream_closed,
  unless_over, response_read, event_received, stream_request, heartbeat_tick, inbound_stream,
  is_running, on_inbound, on_event, on_events,
}

module _ {Value : Type 0} (json : Json Value) where
  -- What comes between without a change: streams of the server, requests for a stream, and ticks.
  abbrev pub IsIdle : Event Value → Type 0
  IsIdle (inbound_stream stream port) = Unit
  IsIdle (stream_request response opened) = Unit
  IsIdle (heartbeat_tick written) = Unit
  IsIdle _ = ⊥

  -- The response to the request with this number.
  pub record Answers (id : ℕ) (r : JsonRpcResponse Value) (v : Value) : Type 0 where
    pub numbered : json.as_number r.id ≡ some (some id)
    pub successful : r.result ≡ some v

  on_events-append :
      (es fs : List (Event Value)) (s : Session)
      → on_events json s (es ++ fs) ≡ on_events json (on_events json s es) fs
  unfolding on_events
  on_events-append [] fs s = refl
  on_events-append (e ∷ es) fs s = on_events-append es fs _

  idle_step :
      (e : Event Value) (s : Session)
      → IsIdle e
      → is_running s.world.state ≡ false
      → (xs : List (ℕ × Bool)) × (on_event json s e ≡ record s { answered = xs })
  unfolding on_event on_inbound
  idle_step (inbound_stream stream port) s i r = (s.answered, rw r refl)
  idle_step (stream_request response opened) s i r = (s.answered ++ (response, opened) ∷ [], refl)
  idle_step (heartbeat_tick written) s i r = (s.answered, rw r refl)
  idle_step yamux_error s i r = elim i [ ]
  idle_step yamux_closed s i r = elim i [ ]
  idle_step (response_read response) s i r = elim i [ ]
  idle_step (control_read input) s i r = elim i [ ]
  idle_step (time_is_up id) s i r = elim i [ ]
  idle_step (event_received setup written) s i r = elim i [ ]
  idle_step event_stream_closed s i r = elim i [ ]

  idle_steps :
      (es : List (Event Value)) (s : Session)
      → All IsIdle es
      → is_running s.world.state ≡ false
      → s.result ≡ none
      → (xs : List (ℕ × Bool)) × (on_events json s es ≡ record s { answered = xs })
  unfolding on_events
  idle_steps [] s i r n = (s.answered, refl)
  idle_steps (e ∷ es) s i r n =
      let (xs, here) = idle_step e s i.0 r in
      let (ys, rest) = idle_steps es (record s { answered = xs }) i.1 r n in
      (
        ys,
        ap (λ result. on_events json (unless_over json result s (on_event json s e)) es) n
            ∙ ap (λ t. on_events json t es) here
            ∙ rest,
      )

  abbrev pub at_ : ClientWorld → ClientControlChannel → List (ℕ × Bool) → Session
  at_ w c xs = record { world = w; channel = c; served = []; answered = xs; result = none }

  -- An event behind idle ones, where the session is not running yet.
  pub through :
      (es : List (Event Value)) (e : Event Value) (fs : List (Event Value)) (w : ClientWorld)
      (c : ClientControlChannel) (xs : List (ℕ × Bool))
      → All IsIdle es
      → is_running w.state ≡ false
      → (ys : List (ℕ × Bool)) × (on_events json (at_ w c xs) (es ++ e ∷ fs)
          ≡ on_events json (on_event json (at_ w c ys) e) fs)
  unfolding on_events
  through es e fs w c xs i r =
      let (ys, waited) = idle_steps es (at_ w c xs) i r refl in
      (ys, on_events-append es (e ∷ fs) (at_ w c xs) ∙ ap (λ t. on_events json t (e ∷ fs)) waited)

  -- The channel with one request waiting, and with its answer.
  abbrev pub asking : ℕ → Waiter → Str → ClientControlChannel
  asking id w written = record {
    request_id = id + 1;
    pending_requests = (id, w) ∷ [];
    events = [];
    written = written;
  }

  abbrev pub told : ℕ → ControlEvent → Str → ClientControlChannel
  told id e written = record {
    request_id = id + 1;
    pending_requests = [];
    events = e ∷ [];
    written = written;
  }

  pub response_step :
      (id : ℕ) (waiter : Waiter) (e : ControlEvent) (r : JsonRpcResponse Value) (v : Value)
      (written : Str) (w : ClientWorld) (xs : List (ℕ × Bool))
      → Answers id r v
      → on_response json waiter r ≡ some e
      → on_event json (at_ w (asking id waiter written) xs) (response_read r)
        ≡ at_ w (told id e written) xs
  unfolding on_event handle_response answer lookup remove
  response_step id waiter e r v written w xs a h =
      let here : (id == id) ≡ true = ground arith in
      rw (a.numbered, here, h, handle_response, answer)
        (ap
          (λ (b : Bool).
            at_ w
              (record {
                request_id = id + 1;
                pending_requests = if b then [] else (id, waiter) ∷ [];
                events = e ∷ [];
                written = written;
              })
              xs)
          here)

  pub on_authenticated :
      (r : JsonRpcResponse Value) (v : Value) (cid : Str)
      → Answers 1 r v
      → json.authenticate_result v ≡ some cid
      → on_response json for_authentication r ≡ some (authentication_success cid)
  unfolding on_response
  on_authenticated r v cid a h = rw (a.successful, h, on_response) refl

  pub on_submitted :
      (r : JsonRpcResponse Value) (v : Value) (rejected : List Str)
      → Answers 2 r v
      → json.submit_config_result v ≡ some rejected
      → on_response json for_config r ≡ some (config_answer rejected)
  unfolding on_response
  on_submitted r v rejected a h = rw (a.successful, h, on_response) refl
