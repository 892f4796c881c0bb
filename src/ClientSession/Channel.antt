-- ===== src/ClientSession/Channel.antt =====
-- `ClientControlChannel` of src/client/control_channel.rs. JSON is a parameter: serde reads responses,
-- notifications and their parts, and writes the requests.
use tls_tunnel.Prelude.{
  ℕ, zero, suc, ◌+◌, ◌%◌, ◌^◌, Bool, true, false, Option, none, some, List, [], ◌∷◌, ◌++◌, Str,
  codes, length, if◌then◌else◌, nat_eq, Table, lookup, insert, remove, Outcome, ok, err, ◌⊎◌, inl,
  inr,
}
use tls_tunnel.Control.Framing.{encode, Frame, closed, truncated, too_large, message, read_frame}
use tls_tunnel.Control.Channel.{JsonRpcRequest}

pub record JsonRpcError (Value : Type 0) : Type 0 where
  pub text : Str
  pub details : Option Value

pub record JsonRpcResponse (Value : Type 0) : Type 0 where
  pub result : Option Value
  pub error : Option (JsonRpcError Value)
  pub id : Value

pub record Json (Value : Type 0) : Type 0 where
  -- a number, with its value if that is a `u64`
  pub as_number : Value → Option (Option ℕ)
  pub response : Str → Option (JsonRpcResponse Value)
  pub request : Str → Option (JsonRpcRequest Value)
  -- the client id of an `AuthenticateResult`
  pub authenticate_result : Value → Option Str
  -- the rejected proxies of a `SubmitConfigResult`
  pub submit_config_result : Value → Option (List Str)
  -- the list under "rejected_proxies", which is empty if there is none
  pub rejected_of : Value → Option (List Str)
  pub authenticate_message : ℕ → Str
  pub submit_config_message : ℕ → Str
  pub heartbeat_message : Str

pub data ControlEvent : Type 0 where
  authentication_success : (client_id : Str) → ControlEvent
  authentication_failed : (reason : Str) → ControlEvent
  config_accepted : ControlEvent
  config_partially_rejected config_rejected : (rejected_proxies : List Str) → ControlEvent
  connection_closed : ControlEvent

-- The task that waits for the response to a request.
pub data Waiter : Type 0 where
  for_authentication for_config : Waiter

-- The channel with what it has written, and the events that the event loop has not received yet.
pub record ClientControlChannel : Type 0 where
  pub request_id : ℕ
  pub pending_requests : Table ℕ Waiter
  pub events : List ControlEvent
  pub written : Str

unfoldable pub channel_new : ClientControlChannel
channel_new = record { request_id = 1; pending_requests = []; events = []; written = [] }

abbrev pub raise : Option ControlEvent → ClientControlChannel → ClientControlChannel
raise none c = c
raise (some event) c = record c { events = c.events ++ event ∷ [] }

pub data ReadFailure : Type 0 where
  length_too_large : ℕ → ReadFailure
  body_missing not_json : ReadFailure

abbrev pub config_answer : List Str → ControlEvent
config_answer [] = config_accepted
config_answer (name ∷ names) = config_partially_rejected (name ∷ names)

abbrev pub id_of : Option ℕ → ℕ
id_of (some n) = n
id_of none = 0

-- After ten seconds without a response.
abbrev pub timeout_event : Waiter → ControlEvent
timeout_event for_authentication =
    authentication_failed (codes "Timeout waiting for authentication response")
timeout_event for_config = config_rejected (codes "Timeout waiting for config response" ∷ [])

unfoldable pub time_out : ClientControlChannel → ℕ → ClientControlChannel
time_out c id = elim (lookup id c.pending_requests) [
  | none ↦ c
  | some waiter ↦
      raise (some (timeout_event waiter))
        (record c { pending_requests = remove id c.pending_requests })
]

-- Where writing fails, the id is used up and nobody waits.
abbrev pub send_request : Waiter → Str → Bool → ClientControlChannel → ClientControlChannel × Bool
send_request waiter text written c =
    let taken = record c { request_id = (c.request_id + 1) % 2 ^ 64 } in
    if written
    then (
      record taken {
        written = c.written ++ encode text;
        pending_requests = insert c.request_id waiter c.pending_requests;
      },
      true,
    )
    else (taken, false)

module _ {Value : Type 0} (json : Json Value) where
  unfoldable pub rejected_proxies : JsonRpcError Value → List Str
  rejected_proxies e = elim e.details [
    | none ↦ e.text ∷ []
    | some details ↦ elim (json.rejected_of details) [
      | some rejected ↦ rejected
      | none ↦ e.text ∷ []
    ]
  ]

  -- What the waiting task makes of the response.
  unfoldable pub on_response : Waiter → JsonRpcResponse Value → Option ControlEvent
  unfolding rejected_proxies
  on_response for_authentication r = elim r.result [
    | some result ↦ elim (json.authenticate_result result) [
      | some client_id ↦ some (authentication_success client_id)
      | none ↦ none
    ]
    | none ↦ elim r.error [ some e ↦ some (authentication_failed e.text) | none ↦ none ]
  ]
  on_response for_config r = elim r.result [
    | some result ↦ elim (json.submit_config_result result) [
      | some rejected ↦ some (config_answer rejected)
      | none ↦ none
    ]
    | none ↦ elim r.error [ some e ↦ some (config_rejected (rejected_proxies e)) | none ↦ none ]
  ]

  unfoldable pub answer : ClientControlChannel → ℕ → JsonRpcResponse Value → ClientControlChannel
  unfolding on_response
  answer c id r = elim (lookup id c.pending_requests) [
    | none ↦ c
    | some waiter ↦
        raise (on_response waiter r) (record c { pending_requests = remove id c.pending_requests })
  ]

  unfoldable pub handle_response :
      ClientControlChannel → JsonRpcResponse Value → ClientControlChannel
  unfolding answer
  handle_response c r = elim (json.as_number r.id) [ none ↦ c | some n ↦ answer c (id_of n) r ]

  unfoldable pub send_authenticate : Bool → ClientControlChannel → ClientControlChannel × Bool
  send_authenticate written c =
      send_request for_authentication (json.authenticate_message c.request_id) written c

  unfoldable pub send_submit_config : Bool → ClientControlChannel → ClientControlChannel × Bool
  send_submit_config written c =
      send_request for_config (json.submit_config_message c.request_id) written c

  unfoldable pub send_heartbeat : Bool → ClientControlChannel → ClientControlChannel
  send_heartbeat written c =
      if written then record c { written = c.written ++ encode json.heartbeat_message } else c

  -- A message of the server that is no response, the end of the stream, or why reading fails; with the channel
  -- and what is left of the stream.
  pub record Reading : Type 0 where
    pub channel : ClientControlChannel
    pub rest : Str
    pub result : Outcome ReadFailure (Option (JsonRpcRequest Value))

  abbrev pub read_as :
      ClientControlChannel → Str → Outcome ReadFailure (Option (JsonRpcRequest Value)) → Reading
  read_as c rest result = record { channel = c; rest = rest; result = result }

  -- What a message that is no response makes of the call.
  unfoldable pub as_request : ClientControlChannel → Str → Str → Reading
  as_request c body rest = elim (json.request body) [
    | some request ↦ read_as c rest (ok (some request))
    | none ↦ read_as c rest (err not_json)
  ]

  unfoldable pub on_frame :
      ClientControlChannel → Str → Frame → Reading ⊎ (ClientControlChannel × Str)
  unfolding as_request handle_response
  on_frame c input closed = inl (read_as c input (ok none))
  on_frame c input truncated = inl (read_as c input (err body_missing))
  on_frame c input (too_large n) = inl (read_as c input (err (length_too_large n)))
  on_frame c input (message body rest) = elim (json.response body) [
    | some r ↦ inr (handle_response c r, rest)
    | none ↦ inl (as_request c body rest)
  ]

  -- The loop, which goes on behind each response. Fuel: more than the messages of the stream.
  unfoldable pub read_loop : ℕ → ClientControlChannel → Str → Reading
  unfolding on_frame
  read_loop zero c input = read_as c input (ok none)
  read_loop (suc fuel) c input = elim (on_frame c input (read_frame input)) [
    | inl reading ↦ reading
    | inr more ↦ read_loop fuel more.0 more.1
  ]

  unfoldable pub read_message : ClientControlChannel → Str → Reading
  unfolding read_loop
  read_message c input = read_loop (suc (length input)) c input
