-- ===== src/Control/Channel.antt =====
-- `ServerControlChannel` of src/server/control_channel.rs: `read_message`, called again and again by the
-- event loop, and `handle_request`. JSON is a parameter: serde reads a request and its parameters.
use tls_tunnel.Prelude.{Option, none, some, List, [], ◌∷◌, drop, ℕ, Str}
use tls_tunnel.Config.Types.{ProxyConfig, VisitorConfig}
use tls_tunnel.Control.Framing.{closed, truncated, too_large, message, read_frame}
use tls_tunnel.Control.Method.{
  ControlMethod, authenticate, submit_config, heartbeat, push_config_status, push_stats,
  push_exception, from_str,
}

pub record JsonRpcRequest (Value : Type 0) : Type 0 where
  pub method : Str
  pub params : Value
  pub id : Option Value

pub record Json (Value : Type 0) : Type 0 where
  pub null : Value
  pub request : Str → Option (JsonRpcRequest Value)
  pub authenticate_params : Value → Option (Str × Str)
  pub submit_config_params : Value → Option (List ProxyConfig × List VisitorConfig)

pub data ControlEvent (Value : Type 0) : Type 0 where
  authenticate_request : (id : Value) (auth_key : Str) → ControlEvent Value
  submit_config_request :
      (id : Value) (proxies : List ProxyConfig) (visitors : List VisitorConfig) → ControlEvent Value
  heartbeat_event connection_closed : ControlEvent Value

-- Why reading fails.
pub data ReadFailure : Type 0 where
  length_too_large : ℕ → ReadFailure
  body_missing not_json bad_params : ReadFailure
  unknown_method : Str → ReadFailure

pub data Handling (Value : Type 0) : Type 0 where
  raises : ControlEvent Value → Handling Value
  ignored : Handling Value
  fails : ReadFailure → Handling Value

-- The events of a stream, and how reading it ended: `none` when the client closed it.
pub record Reading (Value : Type 0) : Type 0 where
  pub events : List (ControlEvent Value)
  pub failure : Option ReadFailure

-- How a call of `read_message` ends: by itself, or dropped when another branch of `select!` is ready first, with
-- as many bytes of the stream as it has taken by then.
pub data Call : Type 0 where
  finishes : Call
  cancelled : (taken : ℕ) → Call

module _ {Value : Type 0} (json : Json Value) where
  unfoldable pub or_null : Option Value → Value
  or_null none = json.null
  or_null (some id) = id

  -- The check of the version behind `authenticate` only warns.
  unfoldable pub handle_method : ControlMethod → JsonRpcRequest Value → Handling Value
  unfolding or_null
  handle_method authenticate r = elim (json.authenticate_params r.params) [
    | some params ↦ raises (authenticate_request (or_null r.id) params.0)
    | none ↦ fails bad_params
  ]
  handle_method submit_config r = elim (json.submit_config_params r.params) [
    | some params ↦ raises (submit_config_request (or_null r.id) params.0 params.1)
    | none ↦ fails bad_params
  ]
  handle_method heartbeat r = raises heartbeat_event
  handle_method push_config_status r = ignored
  handle_method push_stats r = ignored
  handle_method push_exception r = ignored

  unfoldable pub handle_request : JsonRpcRequest Value → Handling Value
  unfolding from_str handle_method
  handle_request r = elim (from_str r.method) [
    | some method ↦ handle_method method r
    | none ↦ fails (unknown_method r.method)
  ]

  -- From the body of a message to its event.
  unfoldable pub handle_message : Str → Handling Value
  unfolding handle_request
  handle_message body = elim (json.request body) [
    | some r ↦ handle_request r
    | none ↦ fails not_json
  ]

  abbrev pub add : ControlEvent Value → Reading Value → Reading Value
  add e reading = record { events = e ∷ reading.events; failure = reading.failure }

  abbrev pub continue_with : Handling Value → Reading Value → Reading Value
  continue_with (raises e) rest = add e rest
  continue_with ignored rest = rest
  continue_with (fails f) rest = record { events = []; failure = some f }

  -- The calls of `read_message` in the event loop, one after the other, on the bytes of the stream. A call that
  -- is dropped has taken its bytes off the stream.
  unfoldable pub read_messages : List Call → Str → Reading Value
  unfolding read_frame handle_message
  read_messages [] input = record { events = []; failure = none }
  read_messages (cancelled taken ∷ calls) input = read_messages calls (drop taken input)
  read_messages (finishes ∷ calls) input = elim (read_frame input) [
    | closed ↦ record { events = connection_closed ∷ []; failure = none }
    | truncated ↦ record { events = []; failure = some body_missing }
    | too_large n ↦ record { events = []; failure = some (length_too_large n) }
    | message body rest ↦ continue_with (handle_message body) (read_messages calls rest)
  ]
