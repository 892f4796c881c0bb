-- ===== src/Server/Session.antt =====
-- `run_server_event_loop` of src/server/mod.rs behind the acceptance of the control stream: one event
-- for each branch of its `select!`.
use tls_tunnel.Prelude.{
  ℕ, Bool, true, false, Option, none, some, List, [], ◌∷◌, ◌++◌, if◌then◌else◌, Str, ◌==◌, nat_eq,
  list_eq,
}
use tls_tunnel.Config.Types.{ProxyConfig, VisitorConfig}
use tls_tunnel.Server.World.{
  Shared, SessionState, authenticated, configuring_proxy, running, Message, auth_success,
  auth_failure, ServerWorld, world_new, cleanup, send,
}
use tls_tunnel.Server.Submission.{Interference, submit}

-- `client_id` is the identifier that the server makes up. A notice of a listener stands with its text.
pub data Event : Type 0 where
  authenticate_request : (id : ℕ) (auth_key : Str) (client_id : ℕ) → Event
  submit_config_request :
      (id now : ℕ) (others : Interference) (proxies : List ProxyConfig)
      (visitors : List VisitorConfig)
      → Event
  heartbeat connection_closed event_stream_closed : Event
  inbound_stream : ℕ → Event
  yamux_error yamux_closed read_error control_stream_closed : Event
  stream_request : (response : ℕ) (opened : Bool) → Event
  exception_notice : Message → Event

-- A running session: the streams handed to `handle_visitor_stream`, and the requests of other
-- sessions that were answered with a new stream.
pub record Session : Type 0 where
  pub world : ServerWorld
  pub shared : Shared
  pub served : List ℕ
  pub answered : List ℕ
  pub stopped : Bool

unfoldable pub is_running : SessionState → Bool
is_running running = true
is_running _ = false

unfoldable pub is_authenticated : SessionState → Bool
is_authenticated authenticated = true
is_authenticated _ = false

-- `break`, and the clean-up behind the loop.
unfoldable pub stop : Session → Session
stop s =
    let (w, registry) = cleanup s.world s.shared.proxy_registry in
    record s { world = w; shared = record (s.shared) { proxy_registry = registry }; stopped = true }

unfoldable pub on_authenticate : (ℕ → Bool) → Session → ℕ → Str → ℕ → Session
unfolding stop
on_authenticate delivers s id auth_key client_id =
    if auth_key == s.shared.config.auth_key
    then (let (w, written) = send delivers s.world (auth_success id client_id) in
        if written
        then record s {
          world = record w { client_id = some client_id; session_state = authenticated };
        }
        else stop (record s { world = w }))
    else stop (record s { world = (send delivers s.world (auth_failure id)).0 })

unfoldable pub continue_if : Option Bool → Session → Session
unfolding stop
continue_if (some true) s = s
continue_if (some false) s = stop s
continue_if none s = stop s

unfoldable pub on_submit :
    (ℕ → Bool) → Session → ℕ → ℕ → Interference → List ProxyConfig → List VisitorConfig → Session
unfolding is_authenticated continue_if
on_submit delivers s id now others proxies visitors =
    if is_authenticated s.world.session_state
    then (let r =
          submit delivers others (record (s.world) { session_state = configuring_proxy }) s.shared
            id now proxies visitors in
        continue_if r.result (record s { world = r.world; shared = r.shared }))
    else stop s

unfoldable pub on_event : (ℕ → Bool) → Session → Event → Session
unfolding on_authenticate on_submit is_running
on_event delivers s (authenticate_request id auth_key client_id) =
    on_authenticate delivers s id auth_key client_id
on_event delivers s (submit_config_request id now others proxies visitors) =
    on_submit delivers s id now others proxies visitors
on_event delivers s heartbeat = s
on_event delivers s connection_closed = stop s
on_event delivers s event_stream_closed = stop s
on_event delivers s (inbound_stream stream) =
    if is_running s.world.session_state then record s { served = s.served ++ stream ∷ [] } else s
on_event delivers s yamux_error = stop s
on_event delivers s yamux_closed = stop s
on_event delivers s read_error = stop s
on_event delivers s control_stream_closed = stop s
on_event delivers s (stream_request response opened) =
    if is_running s.world.session_state
    then (if opened then record s { answered = s.answered ++ response ∷ [] } else s)
    else s
on_event delivers s (exception_notice m) = record s { world = (send delivers s.world m).0 }

-- A stopped session handles no event.
unfoldable pub step : (ℕ → Bool) → Session → Event → Session
unfolding on_event
step delivers s e = if s.stopped then s else on_event delivers s e

unfoldable pub run : (ℕ → Bool) → Session → List Event → Session
unfolding step
run delivers s [] = s
run delivers s (e ∷ es) = run delivers (step delivers s e) es

unfoldable pub begin : ℕ → Shared → Session
begin stream_tx shared = record {
  world = world_new stream_tx;
  shared = shared;
  served = [];
  answered = [];
  stopped = false;
}
