-- ===== src/ClientSession/Order.antt =====
-- The order in which a session of src/client/mod.rs comes up.
use tls_tunnel.Prelude.{
  ℕ, ◌≤◌, ◌≡◌, refl, ap, Bool, true, false, Option, none, some, List, [], ◌∷◌, ◌++◌, Str, arith,
  nat_eq, Outcome, ok, err, if_both, if_cases, insert, Table,
}
use tls_tunnel.Config.Types.{ProxyConfig, ClientFullConfig}
use tls_tunnel.Pool.Manager.{ConnectionPool}
use tls_tunnel.Control.Channel.{JsonRpcRequest}
use tls_tunnel.ClientSession.Channel.{
  ControlEvent, ClientControlChannel, channel_new, ReadFailure, Json, send_authenticate,
  send_heartbeat, read_message, handle_response, time_out,
}
use tls_tunnel.ClientSession.World.{
  ClientState, authenticating, authenticated, configuring_proxy, running, ClientWorld, Setup,
  Handled, handle_control_event,
}
use tls_tunnel.ClientSession.Loop.{
  Session, Event, inbound_stream, yamux_error, yamux_closed, response_read, control_read,
  time_is_up, event_received, event_stream_closed, stream_request, heartbeat_tick, is_running,
  handled, when_pooled, on_inbound, on_read, on_received, on_event, unless_over, on_events,
  session_new, begun, run_client_event_loop, break_off, find_proxy,
}
use tls_tunnel.ClientSession.Tokens.{
  Kind, authentication, configuration, tokens, raised, authentication-Fits, configuration-Fits,
  handle_response-tokens, time_out-tokens, read_message-tokens,
}
use tls_tunnel.ClientSession.Phases.{Phase, Names, IsOrderly, Phase-fewer, Phase-shut_down}
use tls_tunnel.ClientSession.Receiving.{Received, handle_control_event-Received}

module _ (config : ClientFullConfig) {Value : Type 0} (json : Json Value) where
  module _ (Answered : List Str → Type 0) where
    handled-IsOrderly :
        (s : Session) (h : Handled)
        → Received config Answered json s.served h
        → IsOrderly config Answered (handled s h)
    handled-IsOrderly s (w, c, verdict) r = record { configured = r.0; phase = r.1 }

    on_received-IsOrderly :
        (setup : Setup) (written : Bool) (s : Session) (events : List ControlEvent)
        → s.channel.events ≡ events
        → ((rejected : List Str) → Names events rejected → Answered rejected)
        → IsOrderly config Answered s
        → IsOrderly config Answered (on_received json setup written s events)
    unfolding on_received
    on_received-IsOrderly setup written s [] is told o = o
    on_received-IsOrderly setup written s (e ∷ events) is told o =
        let c = record (s.channel) { events = events } in
        handled-IsOrderly s (handle_control_event json setup written s.world c e) (
          handle_control_event-Received config Answered json setup written s.world c e events
            s.served told o.configured
            (Phase-fewer config Answered s.world.state _ _ _ _ s.world s.served
              (omega (arith, ap (raised authentication) is))
              (omega (arith, ap (raised configuration) is)) o.phase))

    -- A channel that promises no more than before keeps the session in order.
    with_channel :
        (s : Session) (c : ClientControlChannel)
        → tokens authentication c ≤ tokens authentication s.channel
        → tokens configuration c ≤ tokens configuration s.channel
        → IsOrderly config Answered s
        → IsOrderly config Answered (record s { channel = c })
    with_channel s c a k o = record {
      configured = o.configured;
      phase = Phase-fewer config Answered s.world.state _ _ _ _ s.world s.served a k o.phase;
    }

    broken_off :
        (s : Session) → IsOrderly config Answered s → IsOrderly config Answered (break_off s)
    broken_off s o = record {
      configured = o.configured;
      phase = Phase-shut_down config Answered s.world.state _ _ s.world s.served o.phase;
    }

    on_read-IsOrderly :
        (s : Session) (c : ClientControlChannel)
        (r : Outcome ReadFailure (Option (JsonRpcRequest Value)))
        → IsOrderly config Answered (record s { channel = c })
        → IsOrderly config Answered (on_read json s c r)
    unfolding on_read
    on_read-IsOrderly s c (ok (some notification)) o = o
    on_read-IsOrderly s c (ok none) o = broken_off (record s { channel = c }) o
    on_read-IsOrderly s c (err e) o = broken_off (record s { channel = c }) o

    serving :
        (st : ClientState) (a c : ℕ) (w : ClientWorld)
        (served later : List (ℕ × Option ProxyConfig))
        → is_running st ≡ true
        → Phase config Answered st a c w served
        → Phase config Answered st a c w later
    unfolding is_running
    serving authenticating a c w served later r p = absurd (cc r)
    serving authenticated a c w served later r p = p
    serving configuring_proxy a c w served later r p = absurd (cc r)
    serving running a c w served later r p = p

    on_inbound-IsOrderly :
        (s : Session) (stream port : ℕ)
        → IsOrderly config Answered s
        → IsOrderly config Answered (on_inbound json s stream port)
    unfolding on_inbound
    on_inbound-IsOrderly s stream port o =
        if_cases (IsOrderly config Answered) (is_running s.world.state)
          (λ r. pooled s.world.proxy_pools r) (λ r. o)
      where
        pooled :
            (pools : Option (Table ℕ ConnectionPool))
            → is_running s.world.state ≡ true
            → IsOrderly config Answered (
                when_pooled pools s (record s {
                  served = s.served ++ (stream, find_proxy port s.world.config.proxies) ∷ [];
                }))
        pooled none r = o
        pooled (some pools) r = record {
          configured = o.configured;
          phase =
              serving s.world.state (tokens authentication s.channel)
                (tokens configuration s.channel) s.world s.served
                (s.served ++ (stream, find_proxy port s.world.config.proxies) ∷ []) r o.phase;
        }

    -- What an event that takes a control event shows of the answers that came.
    abbrev Tells : Session → Event Value → Type 0
    Tells s (event_received setup written) =
        (rejected : List Str) → Names s.channel.events rejected → Answered rejected
    Tells s _ = Unit

    on_event-IsOrderly :
        (s : Session) (e : Event Value)
        → Tells s e
        → IsOrderly config Answered s
        → IsOrderly config Answered (on_event json s e)
    unfolding on_event send_heartbeat
    on_event-IsOrderly s (inbound_stream stream port) told o = on_inbound-IsOrderly s stream port o
    on_event-IsOrderly s yamux_error told o = broken_off s o
    on_event-IsOrderly s yamux_closed told o = broken_off s o
    on_event-IsOrderly s (response_read r) told o =
        with_channel s (handle_response json s.channel r)
          (handle_response-tokens authentication json s.channel r (authentication-Fits json))
          (handle_response-tokens configuration json s.channel r (configuration-Fits json)) o
    on_event-IsOrderly s (control_read input) told o =
        let reading = read_message json s.channel input in
        on_read-IsOrderly s reading.channel reading.result (
          with_channel s reading.channel
            (read_message-tokens authentication json s.channel input (authentication-Fits json))
            (read_message-tokens configuration json s.channel input (configuration-Fits json)) o)
    on_event-IsOrderly s (time_is_up id) told o =
        with_channel s (time_out s.channel id)
          (time_out-tokens authentication json s.channel id (authentication-Fits json))
          (time_out-tokens configuration json s.channel id (configuration-Fits json)) o
    on_event-IsOrderly s (event_received setup written) told o =
        on_received-IsOrderly setup written s s.channel.events refl told o
    on_event-IsOrderly s event_stream_closed told o = broken_off s o
    on_event-IsOrderly s (stream_request response opened) told o = record {
      configured = o.configured;
      phase = o.phase;
    }
    on_event-IsOrderly s (heartbeat_tick written) told o =
        if_both (IsOrderly config Answered) (is_running s.world.state)
          (with_channel s (send_heartbeat json written s.channel)
            (beat authentication written s.channel) (beat configuration written s.channel) o)
          o
      where
        beat :
            (k : Kind) (b : Bool) (c : ClientControlChannel)
            → tokens k (send_heartbeat json b c) ≤ tokens k c
        beat k true c = omega arith
        beat k false c = omega arith

    on_events-IsOrderly :
        (es : List (Event Value)) (s : Session)
        → ((before : List (Event Value)) (e : Event Value) (after : List (Event Value))
            → es ≡ before ++ e ∷ after
            → Tells (on_events json s before) e)
        → IsOrderly config Answered s
        → IsOrderly config Answered (on_events json s es)
    unfolding on_events
    on_events-IsOrderly [] s told o = o
    on_events-IsOrderly (e ∷ es) s told o =
        on_events-IsOrderly es (unless_over json s.result s (on_event json s e))
          (λ before f after split. told (e ∷ before) f after (ap (◌∷◌ e) split)) (still s.result)
      where
        still :
            (r : Option Bool) → IsOrderly config Answered (unless_over json r s (on_event json s e))
        still none = on_event-IsOrderly s e (told [] e es refl) o
        still (some b) = o

    begun-IsOrderly :
        (written : Bool)
        → IsOrderly config Answered (
            begun json
              (session_new json config)
              (send_authenticate json written (session_new json config).channel))
    unfolding session_new send_authenticate channel_new insert
    begun-IsOrderly true = record {
      configured = refl;
      phase = (omega arith, refl, (refl, refl, refl));
    }
    begun-IsOrderly false = record {
      configured = refl;
      phase = (omega arith, refl, (refl, refl, refl));
    }

  -- The lists of rejected proxies of the answers that the loop has taken: each was named by the control event
  -- at the head of those that waited when the loop took it.
  pub record Answered (written : Bool) (es : List (Event Value)) (rejected : List Str)
      : Type 0 where
    before : List (Event Value)
    setup : Setup
    sent : Bool
    after : List (Event Value)
    split : es ≡ before ++ event_received setup sent ∷ after
    named : Names (run_client_event_loop json config written before).channel.events rejected

  answered :
      (written : Bool) (es before : List (Event Value)) (e : Event Value)
      (after : List (Event Value))
      → es ≡ before ++ e ∷ after
      → Tells (Answered written es) (run_client_event_loop json config written before) e
  answered written es before (event_received setup sent) after split = λ rejected named. record {
    before = before;
    setup = setup;
    sent = sent;
    after = after;
    split = split;
    named = named;
  }
  answered written es before _ after split = tt

  -- Whatever the server sends, whenever and in whatever order, and whatever breaks: a session that is not running
  -- has taken no stream and started no listener, and at most one answer can still move it on; and one that is
  -- running has started all forwarders and exactly the visitors that are not rejected by an answer, and each
  -- once; it took this answer from its channel, and nothing that comes can start them again.
  pub run_client_event_loop-IsOrderly :
      (written : Bool) (es : List (Event Value))
      → IsOrderly config (Answered written es) (run_client_event_loop json config written es)
  unfolding run_client_event_loop
  run_client_event_loop-IsOrderly written es =
      on_events-IsOrderly (Answered written es) es
        (begun json (session_new json config)
          (send_authenticate json written (session_new json config).channel))
        (answered written es) (begun-IsOrderly (Answered written es) written)
