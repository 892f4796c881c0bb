-- ===== src/ClientSession/Progress.antt =====
-- A session of src/client/mod.rs comes up when the server answers.
use tls_tunnel.Prelude.{
  ℕ, ◌≡◌, refl, ap, sym, subst, ◌∙◌, Bool, true, none, some, List, [], ◌∷◌, ◌++◌, Str, nat_eq,
  insert, All,
}
use tls_tunnel.Config.Types.{ClientFullConfig}
use tls_tunnel.Control.Framing.{encode}
use tls_tunnel.ClientSession.Channel.{
  authentication_success, for_authentication, for_config, ClientControlChannel, channel_new, Json,
  JsonRpcResponse, config_answer, send_authenticate, send_submit_config,
}
use tls_tunnel.ClientSession.World.{
  authenticated, configuring_proxy, running, ClientWorld, Setup, initialize_resources,
  submit_config, start_listeners, handle_control_event,
}
use tls_tunnel.ClientSession.Loop.{
  Session, Event, response_read, event_received, on_received, on_event, on_events, session_new,
  run_client_event_loop,
}
use tls_tunnel.ClientSession.Phases.{IsStartedBut, start_listeners-IsStarted, track_proxies-Same}
use tls_tunnel.ClientSession.Steps.{
  IsIdle, Answers, at_, through, asking, told, response_step, on_authenticated, on_submitted,
}

module _ {Value : Type 0} (json : Json Value) where
  -- The world behind the authentication.
  abbrev set_up : ClientFullConfig → Setup → ClientWorld
  set_up config setup =
      record (initialize_resources setup
        (record ((session_new json config).world) { state = authenticated })) {
          state = configuring_proxy;
        }

  receive_success :
      (config : ClientFullConfig) (setup : Setup) (cid written : Str) (xs : List (ℕ × Bool))
      → (more : Str) × (on_event json
            (at_ json
              (session_new json config).world
              (told json 1 (authentication_success cid) written)
              xs)
            (event_received setup true)
          ≡ at_ json (set_up config setup) (asking json 2 for_config more) xs)
  unfolding on_event on_received handle_control_event submit_config send_submit_config insert
  receive_success config setup cid written xs =
      (written ++ encode (json.submit_config_message 2), refl)

  receive_answer :
      (w : ClientWorld) (setup : Setup) (written : Bool) (rejected : List Str) (bytes : Str)
      (xs : List (ℕ × Bool))
      → on_event json
          (at_ json w (told json 2 (config_answer rejected) bytes) xs)
          (event_received setup written)
        ≡ at_ json
            (start_listeners setup rejected (record w { state = running }))
            (record { request_id = 3; pending_requests = []; events = []; written = bytes })
            xs
  unfolding on_event on_received handle_control_event
  receive_answer w setup written [] bytes xs = refl
  receive_answer w setup written (name ∷ names) bytes xs = refl

  -- The answers of the server to both requests and what they raise, with idle events between.
  abbrev pub answers_between :
      JsonRpcResponse Value
      → Setup
      → JsonRpcResponse Value
      → Setup
      → Bool
      → List (Event Value)
      → List (Event Value)
      → List (Event Value)
      → List (Event Value)
      → List (Event Value)
  answers_between r1 setup1 r2 setup2 written idle1 idle2 idle3 idle4 =
      idle1
      ++ (response_read r1
          ∷ (idle2
              ++ (event_received setup1 true
                  ∷ (idle3
                      ++ (response_read r2 ∷ (idle4 ++ (event_received setup2 written ∷ [])))))))

  module _ (config : ClientFullConfig) (r1 r2 : JsonRpcResponse Value) (v1 v2 : Value) (cid : Str)
      (rejected : List Str) (setup1 setup2 : Setup) (written : Bool) where
    come_up :
        (idle1 idle2 idle3 idle4 : List (Event Value))
        → Answers json 1 r1 v1
        → json.authenticate_result v1 ≡ some cid
        → Answers json 2 r2 v2
        → json.submit_config_result v2 ≡ some rejected
        → All (IsIdle json) idle1
        → All (IsIdle json) idle2
        → All (IsIdle json) idle3
        → All (IsIdle json) idle4
        → (c : ClientControlChannel) × (xs : List (ℕ × Bool)) × (run_client_event_loop json config
              true
              (answers_between r1 setup1 r2 setup2 written idle1 idle2 idle3 idle4)
            ≡ at_ json
                (start_listeners setup2 rejected
                  (record (set_up config setup1) { state = running }))
                c
                xs)
    unfolding run_client_event_loop session_new send_authenticate channel_new insert on_events
    come_up idle1 idle2 idle3 idle4 a1 h1 a2 h2 i1 i2 i3 i4 =
        let w0 = (session_new json config).world in
        let w1 = set_up config setup1 in
        let text1 = encode (json.authenticate_message 1) in
        let last4 = idle4 ++ (event_received setup2 written ∷ []) in
        let last3 = idle3 ++ (response_read r2 ∷ last4) in
        let last2 = idle2 ++ (event_received setup1 true ∷ last3) in
        let (x1, p1) =
          through json idle1 (response_read r1) last2 w0 (asking json 1 for_authentication text1) []
            i1 refl in
        let q1 =
          response_step json 1 for_authentication (authentication_success cid) r1 v1 text1 w0 x1 a1
            (on_authenticated json r1 v1 cid a1 h1) in
        let (x2, p2) =
          through json idle2 (event_received setup1 true) last3 w0
            (told json 1 (authentication_success cid) text1) x1 i2 refl in
        let (text2, q2) = receive_success config setup1 cid text1 x2 in
        let (x3, p3) =
          through json idle3 (response_read r2) last4 w1 (asking json 2 for_config text2) x2 i3
            refl in
        let q3 =
          response_step json 2 for_config (config_answer rejected) r2 v2 text2 w1 x3 a2
            (on_submitted json r2 v2 rejected a2 h2) in
        let (x4, p4) =
          through json idle4 (event_received setup2 written) [] w1
            (told json 2 (config_answer rejected) text2) x3 i4 refl in
        let q4 = receive_answer w1 setup2 written rejected text2 x4 in
        (
          record { request_id = 3; pending_requests = []; events = []; written = text2 },
          x4,
          p1
              ∙ ap (λ t. on_events json t last2) q1
              ∙ p2
              ∙ ap (λ t. on_events json t last3) q2
              ∙ p3
              ∙ ap (λ t. on_events json t last4) q3
              ∙ p4
              ∙ q4,
        )

  -- Where the server answers both requests well, a session runs: with all that may come between, it has then started
  -- all forwarders, and every visitor but those whose proxy was rejected.
  pub comes_up :
      (config : ClientFullConfig) (r1 r2 : JsonRpcResponse Value) (v1 v2 : Value) (cid : Str)
      (rejected : List Str) (setup1 setup2 : Setup) (written : Bool)
      (idle1 idle2 idle3 idle4 : List (Event Value))
      → Answers json 1 r1 v1
      → json.authenticate_result v1 ≡ some cid
      → Answers json 2 r2 v2
      → json.submit_config_result v2 ≡ some rejected
      → All (IsIdle json) idle1
      → All (IsIdle json) idle2
      → All (IsIdle json) idle3
      → All (IsIdle json) idle4
      → let s =
          run_client_event_loop json config true
            (answers_between r1 setup1 r2 setup2 written idle1 idle2 idle3 idle4) in
        (s.world.state ≡ running) × (s.result ≡ none) × IsStartedBut config rejected s.world
  unfolding session_new initialize_resources
  comes_up config r1 r2 v1 v2 cid rejected setup1 setup2 written idle1 idle2 idle3 idle4 a1 h1 a2 h2
        i1 i2 i3 i4 =
      let (c, xs, is) =
        come_up config r1 r2 v1 v2 cid rejected setup1 setup2 written idle1 idle2 idle3 idle4 a1 h1
          a2 h2 i1 i2 i3 i4 in
      let w = record (set_up config setup1) { state = running } in
      let kept =
        track_proxies-Same setup1.now config.proxies w0 _
          (record { config = refl; state = refl; visitors = refl; forwarders = refl }) in
      let started =
        start_listeners-IsStarted config setup2 rejected w [] kept.config
          (kept.visitors, kept.forwarders, refl) in
      subst
        (λ (s : Session).
          (s.world.state ≡ running) × (s.result ≡ none) × IsStartedBut config rejected s.world)
        (sym is) (started.2, refl, started.0)
    where
      w0 : ClientWorld
      w0 = record ((session_new json config).world) { state = authenticated }
