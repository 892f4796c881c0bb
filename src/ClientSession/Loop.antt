-- ===== src/ClientSession/Loop.antt =====
-- `run_client_event_loop` of src/client/mod.rs: one event for each branch of its `select!`, for a response that
-- `read_message` handles on its way, and for a waiting task whose time is up. `handle_stream` of
-- src/client/stream.rs is taken up to its choice of a proxy.
use tls_tunnel.Prelude.{
  ℕ, Bool, true, false, Option, none, some, List, [], ◌∷◌, ◌++◌, Str, if◌then◌else◌, ◌==◌, nat_eq,
  Table, Outcome, ok, err,
}
use tls_tunnel.Config.Types.{ProxyConfig, ClientFullConfig}
use tls_tunnel.Pool.Manager.{ConnectionPool}
use tls_tunnel.Control.Channel.{JsonRpcRequest}
use tls_tunnel.ClientSession.Channel.{
  ControlEvent, ClientControlChannel, channel_new, Json, JsonRpcResponse, handle_response, time_out,
  send_authenticate, send_heartbeat, ReadFailure, read_message,
}
use tls_tunnel.ClientSession.World.{
  ClientState, authenticating, running, ClientWorld, Setup, Verdict, goes_on, ends, fails, Handled,
  handle_control_event,
}

-- The `find` over the proxies by their published port.
unfoldable pub find_proxy : ℕ → List ProxyConfig → Option ProxyConfig
find_proxy port [] = none
find_proxy port (proxy ∷ proxies) =
    let later = find_proxy port proxies in if proxy.publish_port == port then some proxy else later

-- A session: the streams that were handed to `handle_stream`, with the proxy that it finds; the requests for a
-- stream that were answered; and the result once the loop has ended, true for `Ok`.
pub record Session : Type 0 where
  pub world : ClientWorld
  pub channel : ClientControlChannel
  pub served : List (ℕ × Option ProxyConfig)
  pub answered : List (ℕ × Bool)
  pub result : Option Bool

pub data Event (Value : Type 0) : Type 0 where
  inbound_stream : (stream port : ℕ) → Event Value
  yamux_error yamux_closed : Event Value
  response_read : JsonRpcResponse Value → Event Value
  control_read : (input : Str) → Event Value
  time_is_up : (id : ℕ) → Event Value
  event_received : (setup : Setup) (written : Bool) → Event Value
  event_stream_closed : Event Value
  stream_request : (response : ℕ) (opened : Bool) → Event Value
  heartbeat_tick : (written : Bool) → Event Value

unfoldable pub is_running : ClientState → Bool
is_running running = true
is_running _ = false

-- `let _ = world.shutdown_tx.send(()); break;`
abbrev pub break_off : Session → Session
break_off s = record s { world = record (s.world) { shut_down = true }; result = some true }

abbrev pub result_of : Verdict → Option Bool
result_of goes_on = none
result_of ends = some true
result_of fails = some false

abbrev pub handled : Session → Handled → Session
handled s (w, c, verdict) = record s { world = w; channel = c; result = result_of verdict }

abbrev pub when_pooled : Option (Table ℕ ConnectionPool) → Session → Session → Session
when_pooled none s t = s
when_pooled (some pools) s t = t

module _ {Value : Type 0} (json : Json Value) where
  unfoldable pub on_inbound : Session → ℕ → ℕ → Session
  unfolding is_running find_proxy
  on_inbound s stream port =
      if is_running s.world.state
      then when_pooled s.world.proxy_pools s
          (record s { served = s.served ++ (stream, find_proxy port s.world.config.proxies) ∷ [] })
      else s

  unfoldable pub on_read :
      Session → ClientControlChannel → Outcome ReadFailure (Option (JsonRpcRequest Value)) → Session
  on_read s c (ok (some notification)) = record s { channel = c }
  on_read s c (ok none) = break_off (record s { channel = c })
  on_read s c (err e) = break_off (record s { channel = c })

  -- The events that wait are received in their order; where none waits, `recv` waits.
  unfoldable pub on_received : Setup → Bool → Session → List ControlEvent → Session
  unfolding handle_control_event
  on_received setup written s [] = s
  on_received setup written s (event ∷ events) = handled s (
      handle_control_event json setup written s.world (record (s.channel) { events = events })
        event)

  unfoldable pub on_event : Session → Event Value → Session
  unfolding on_inbound on_read on_received is_running
  on_event s (inbound_stream stream port) = on_inbound s stream port
  on_event s yamux_error = break_off s
  on_event s yamux_closed = break_off s
  on_event s (response_read r) = record s { channel = handle_response json s.channel r }
  on_event s (control_read input) =
      let reading = read_message json s.channel input in on_read s reading.channel reading.result
  on_event s (time_is_up id) = record s { channel = time_out s.channel id }
  on_event s (event_received setup written) = on_received setup written s s.channel.events
  on_event s event_stream_closed = break_off s
  on_event s (stream_request response opened) = record s {
    answered = s.answered ++ (response, opened) ∷ [];
  }
  on_event s (heartbeat_tick written) =
      if is_running s.world.state
      then record s { channel = send_heartbeat json written s.channel }
      else s

  abbrev pub unless_over : Option Bool → Session → Session → Session
  unless_over none s t = t
  unless_over (some result) s t = s

  unfoldable pub on_events : Session → List (Event Value) → Session
  unfolding on_event
  on_events s [] = s
  on_events s (e ∷ es) = on_events (unless_over s.result s (on_event s e)) es

  unfoldable pub session_new : ClientFullConfig → Session
  unfolding channel_new
  session_new config = record {
    world = record {
      config = config;
      state = authenticating;
      proxy_pools = none;
      trackers = [];
      next_tracker = 0;
      stats_manager = [];
      visitor_listeners = [];
      forwarder_listeners = [];
      shut_down = false;
    };
    channel = channel_new;
    served = [];
    answered = [];
    result = none;
  }

  abbrev pub begun : Session → ClientControlChannel × Bool → Session
  begun s (c, true) = record s { channel = c }
  begun s (c, false) = record s { channel = c; result = some false }

  -- The loop, which starts with the request to authenticate; `written` says whether that can be written.
  unfoldable pub run_client_event_loop : ClientFullConfig → Bool → List (Event Value) → Session
  unfolding session_new on_events send_authenticate
  run_client_event_loop config written es =
      on_events
        (begun (session_new config) (send_authenticate json written (session_new config).channel))
        es
