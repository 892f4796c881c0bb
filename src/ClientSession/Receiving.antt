-- ===== src/ClientSession/Receiving.antt =====
-- What the answers of the server make of a session of src/client/mod.rs.
use tls_tunnel.Prelude.{
  ℕ, ◌+◌, ◌≡◌, refl, sym, subst, ◌∙◌, Bool, true, false, Option, List, [], ◌∷◌, Str, arith, nat_eq,
}
use tls_tunnel.Config.Types.{ProxyConfig, ClientFullConfig}
use tls_tunnel.ClientSession.Channel.{
  ControlEvent, authentication_success, authentication_failed, config_accepted,
  config_partially_rejected, config_rejected, connection_closed, for_config, ClientControlChannel,
  Json, send_submit_config,
}
use tls_tunnel.ClientSession.World.{
  ClientState, authenticating, authenticated, configuring_proxy, running, ClientWorld, Setup,
  goes_on, Handled, initialize_resources, start_listeners, submit_config, handle_control_event,
}
use tls_tunnel.ClientSession.Tokens.{authentication, configuration, tokens, send_request-tokens}
use tls_tunnel.ClientSession.Phases.{
  SameButTrackers, Names, track_proxies-Same, IsQuiet, Phase, Phase-fewer, Phase-shut_down,
  IsQuiet-Same, start_listeners-IsStarted,
}

module _ (config : ClientFullConfig) (Answered : List Str → Type 0) where
  module _ {Value : Type 0} (json : Json Value) where
    -- What a control event makes of a session, when it has been taken off the queue of `c`.
    abbrev pub Received : List (ℕ × Option ProxyConfig) → Handled → Type 0
    Received served (w, c, verdict) =
        (w.config ≡ config)
        × Phase config Answered w.state (tokens authentication c) (tokens configuration c) w served

    submitted :
        (written : Bool) (w : ClientWorld) (c : ClientControlChannel)
        (served : List (ℕ × Option ProxyConfig))
        → w.config ≡ config
        → IsQuiet config w served
        → tokens authentication c ≡ 0
        → tokens configuration c ≡ 0
        → Received served (submit_config json written w c)
    unfolding submit_config send_submit_config
    submitted true w c served own q a k = (
      own,
      (
        omega (
          arith,
          a,
          send_request-tokens authentication for_config (json.submit_config_message c.request_id)
              true c,
        ),
        omega (
          arith,
          k,
          send_request-tokens configuration for_config (json.submit_config_message c.request_id)
              true c,
        ),
        q,
      ),
    )
    submitted false w c served own q a k = (own, (a, omega (arith, k), q))

    initialized-Same :
        (setup : Setup) (w : ClientWorld) → SameButTrackers w (initialize_resources setup w)
    unfolding initialize_resources
    initialized-Same setup w =
        track_proxies-Same setup.now w.config.proxies w _
          (record { config = refl; state = refl; visitors = refl; forwarders = refl })

    on_success :
        (st : ClientState) (setup : Setup) (written : Bool) (w : ClientWorld)
        (c : ClientControlChannel) (served : List (ℕ × Option ProxyConfig))
        → w.config ≡ config
        → Phase config Answered st (1 + tokens authentication c) (tokens configuration c) w served
        → Received served (
            submit_config json written
              (initialize_resources setup (record w { state = authenticated }))
              c)
    on_success authenticating setup written w c served own p =
        let begun = record w { state = authenticated } in
        let kept = initialized-Same setup begun in
        submitted written (initialize_resources setup begun) c served (kept.config ∙ own)
          (IsQuiet-Same config begun (initialize_resources setup begun) served kept p.2)
          (omega (arith, p.0)) p.1
    on_success authenticated setup written w c served own p = elim p [ ]
    on_success configuring_proxy setup written w c served own p = absurd (omega (arith, p.0))
    on_success running setup written w c served own p = absurd (omega (arith, p.0))

    on_answer :
        (st : ClientState) (setup : Setup) (rejected : List Str) (w : ClientWorld)
        (c : ClientControlChannel) (served : List (ℕ × Option ProxyConfig))
        → Answered rejected
        → w.config ≡ config
        → Phase config Answered st (tokens authentication c) (1 + tokens configuration c) w served
        → Received served
            (start_listeners setup rejected (record w { state = running }), c, goes_on)
    on_answer authenticating setup rejected w c served told own p = absurd (omega (arith, p.1))
    on_answer authenticated setup rejected w c served told own p = elim p [ ]
    on_answer configuring_proxy setup rejected w c served told own p =
        let started =
          start_listeners-IsStarted config setup rejected (record w { state = running }) served own
            p.2 in
        (
          started.1,
          subst
              (λ st.
                Phase config Answered st (tokens authentication c) (tokens configuration c)
                  (start_listeners setup rejected (record w { state = running })) served)
              (sym started.2) (p.0, omega (arith, p.1), (rejected, told, started.0)),
        )
    on_answer running setup rejected w c served told own p = absurd (omega (arith, p.1))

    pub handle_control_event-Received :
        (setup : Setup) (written : Bool) (w : ClientWorld) (c : ClientControlChannel)
        (e : ControlEvent) (events : List ControlEvent) (served : List (ℕ × Option ProxyConfig))
        → ((rejected : List Str) → Names (e ∷ events) rejected → Answered rejected)
        → w.config ≡ config
        → Phase config Answered w.state
            (authentication.of_event e + tokens authentication c)
            (configuration.of_event e + tokens configuration c)
            w
            served
        → Received served (handle_control_event json setup written w c e)
    unfolding handle_control_event
    handle_control_event-Received setup written w c (authentication_success client_id) events served
          told own p =
        on_success w.state setup written w c served own
          (Phase-fewer config Answered w.state _ _ _ _ w served (omega arith) (omega arith) p)
    handle_control_event-Received setup written w c (authentication_failed reason) events served
          told own p =
        (own, Phase-fewer config Answered w.state _ _ _ _ w served (omega arith) (omega arith) p)
    handle_control_event-Received setup written w c config_accepted events served told own p =
        on_answer w.state setup [] w c served (told [] refl) own
          (Phase-fewer config Answered w.state _ _ _ _ w served (omega arith) (omega arith) p)
    handle_control_event-Received setup written w c (config_partially_rejected rejected) events
          served told own p =
        on_answer w.state setup rejected w c served (told rejected refl) own
          (Phase-fewer config Answered w.state _ _ _ _ w served (omega arith) (omega arith) p)
    handle_control_event-Received setup written w c (config_rejected rejected) events served told
          own p =
        (own, Phase-fewer config Answered w.state _ _ _ _ w served (omega arith) (omega arith) p)
    handle_control_event-Received setup written w c connection_closed events served told own p = (
      own,
      Phase-shut_down config Answered w.state _ _ w served
          (Phase-fewer config Answered w.state _ _ _ _ w served (omega arith) (omega arith) p),
    )
