-- ===== src/Server/Access.antt =====
-- What a client reaches in the event loop of src/server/mod.rs without the authentication key.
use tls_tunnel.Prelude.{
  ℕ, ◌≡◌, ◌≢◌, refl, Bool, false, List, [], ◌∷◌, All, Str, arith, ◌==◌, nat_eq, list_eq,
  list_beq_iff, ap, ◌∙◌, Bool-cases, inl, inr, if_both,
}
use tls_tunnel.Config.Types.{ProxyConfig, VisitorConfig}
use tls_tunnel.Server.World.{Shared, authenticating, cleanup, send, Message, world_new}
use tls_tunnel.Server.Submission.{Interference}
use tls_tunnel.Server.Session.{
  Event, authenticate_request, submit_config_request, heartbeat, inbound_stream, stream_request,
  exception_notice, Session, is_authenticated, stop, on_authenticate, on_submit, on_event, step,
  run, begin,
}

-- An authentication with the key `key`.
abbrev pub IsLogin : Str → Event → Type 0
IsLogin key (authenticate_request id auth_key client_id) = auth_key ≡ key
IsLogin key _ = ⊥

-- Nothing but messages to the client has happened.
pub record Untouched (shared : Shared) (s : Session) : Type 0 where
  pub state : s.world.session_state ≡ authenticating
  pub keys : s.world.proxy_keys ≡ []
  pub tasks : s.world.listeners ≡ []
  pub same : s.shared ≡ shared
  pub served : s.served ≡ []
  pub answered : s.answered ≡ []

send-Untouched :
    (delivers : ℕ → Bool) {shared : Shared} (s : Session) (m : Message)
    → Untouched shared s
    → Untouched shared (record s { world = (send delivers s.world m).0 })
unfolding send
send-Untouched delivers s m u = ground arith

stop-Untouched : {shared : Shared} (s : Session) → Untouched shared s → Untouched shared (stop s)
unfolding stop cleanup
stop-Untouched s u = rw (u.keys) (record {
  state = u.state;
  keys = refl;
  tasks = u.tasks;
  same = u.same;
  served = u.served;
  answered = u.answered;
})

on_authenticate-Untouched :
    (delivers : ℕ → Bool) {shared : Shared} (s : Session) (id : ℕ) (auth_key : Str) (client_id : ℕ)
    → auth_key ≢ shared.config.auth_key
    → Untouched shared s
    → Untouched shared (on_authenticate delivers s id auth_key client_id)
unfolding on_authenticate
on_authenticate-Untouched delivers {shared} s id auth_key client_id h u =
    elim (Bool-cases (auth_key == s.shared.config.auth_key)) [
      | inl good ↦
          absurd (h ((list_beq_iff _ _).0 good ∙ ap (λ (x : Shared). x.config.auth_key) u.same))
      | inr bad ↦ rw bad (stop-Untouched _ (send-Untouched delivers s _ u))
    ]

on_submit-Untouched :
    (delivers : ℕ → Bool) {shared : Shared} (s : Session) (id now : ℕ) (others : Interference)
    (proxies : List ProxyConfig) (visitors : List VisitorConfig)
    → Untouched shared s
    → Untouched shared (on_submit delivers s id now others proxies visitors)
unfolding on_submit is_authenticated
on_submit-Untouched delivers s id now others proxies visitors u =
    let closed : is_authenticated s.world.session_state ≡ false = rw (u.state) refl in
    rw (closed, on_submit) (stop-Untouched s u)

on_event-Untouched :
    (delivers : ℕ → Bool) {shared : Shared} (s : Session) (e : Event)
    → ¬ IsLogin shared.config.auth_key e
    → Untouched shared s
    → Untouched shared (on_event delivers s e)
unfolding on_event
on_event-Untouched delivers s (authenticate_request id auth_key client_id) h u =
    on_authenticate-Untouched delivers s id auth_key client_id h u
on_event-Untouched delivers s (submit_config_request id now others proxies visitors) h u =
    on_submit-Untouched delivers s id now others proxies visitors u
on_event-Untouched delivers s (inbound_stream stream) h u = ground arith
on_event-Untouched delivers s (stream_request response opened) h u = ground arith
on_event-Untouched delivers s (exception_notice m) h u = send-Untouched delivers s m u
on_event-Untouched delivers s heartbeat h u = u
on_event-Untouched delivers s _ h u = stop-Untouched s u

step-Untouched :
    (delivers : ℕ → Bool) {shared : Shared} (s : Session) (e : Event)
    → ¬ IsLogin shared.config.auth_key e
    → Untouched shared s
    → Untouched shared (step delivers s e)
unfolding step
step-Untouched delivers {shared} s e h u =
    if_both (Untouched shared) s.stopped u (on_event-Untouched delivers s e h u)

run-Untouched :
    (delivers : ℕ → Bool) {shared : Shared} (s : Session) (es : List Event)
    → All (λ e. ¬ IsLogin shared.config.auth_key e) es
    → Untouched shared s
    → Untouched shared (run delivers s es)
unfolding run
run-Untouched delivers s [] h u = u
run-Untouched delivers s (e ∷ es) h u =
    run-Untouched delivers (step delivers s e) es h.1 (step-Untouched delivers s e h.0 u)

-- Whatever a client sends, and however the control stream fails: without an authentication request
-- that carries the server's key the session stays unauthenticated, the registry and the statistics
-- stay as they are, no listener starts and no stream of the client or for another session is served.
pub without_key-Untouched :
    (delivers : ℕ → Bool) (stream_tx : ℕ) (shared : Shared) (es : List Event)
    → All (λ e. ¬ IsLogin shared.config.auth_key e) es
    → Untouched shared (run delivers (begin stream_tx shared) es)
unfolding begin world_new
without_key-Untouched delivers stream_tx shared es h =
    run-Untouched delivers (begin stream_tx shared) es h (record {
      state = refl;
      keys = refl;
      tasks = refl;
      same = refl;
      served = refl;
      answered = refl;
    })
