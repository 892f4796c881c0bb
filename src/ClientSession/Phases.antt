-- ===== src/ClientSession/Phases.antt =====
-- What holds in each state of a session of src/client/mod.rs, and how its listeners start.
use tls_tunnel.Prelude.{
  ℕ, ◌≤◌, ◌≡◌, refl, ap, sym, subst, ◌∙◌, true, false, Option, List, [], ◌∷◌, ◌++◌, Str, arith,
  nat_eq, map, inl, inr, contains, with_port, Bool-cases, ◌⊎◌, list_eq,
}
use tls_tunnel.Config.Types.{ProxyConfig, VisitorConfig, ForwarderConfig, ClientFullConfig}
use tls_tunnel.Routing.Router.{System}
use tls_tunnel.Client.Tracker.{ClientStatsManager}
use tls_tunnel.ClientSession.Channel.{
  ControlEvent, authentication_success, authentication_failed, config_accepted,
  config_partially_rejected, config_rejected, connection_closed,
}
use tls_tunnel.ClientSession.World.{
  ClientState, authenticating, authenticated, configuring_proxy, running, ForwarderTask,
  ClientWorld, Setup, track, track_proxies, startable, visitor_key, track_forwarders,
  forwarder_task, start_listeners,
}
use tls_tunnel.ClientSession.Loop.{Session}
use tls_tunnel.ClientSession.Tokens.{authentication, configuration, tokens}

-- The parts of the world that trackers are not.
pub record SameButTrackers (w v : ClientWorld) : Type 0 where
  pub config : v.config ≡ w.config
  pub state : v.state ≡ w.state
  pub visitors : v.visitor_listeners ≡ w.visitor_listeners
  pub forwarders : v.forwarder_listeners ≡ w.forwarder_listeners

pub track_proxies-Same :
    (now : ℕ) (proxies : List ProxyConfig) (w v : ClientWorld)
    → SameButTrackers w v
    → SameButTrackers w (track_proxies now proxies v)
unfolding track_proxies track
track_proxies-Same now [] w v h = h
track_proxies-Same now (p ∷ proxies) w v h = track_proxies-Same now proxies w _ (record {
  config = h.config;
  state = h.state;
  visitors = h.visitors;
  forwarders = h.forwarders;
})

track_forwarders-Same :
    (now : ℕ) (forwarders : List ForwarderConfig) (w v : ClientWorld)
    → SameButTrackers w v
    → SameButTrackers w (track_forwarders now forwarders v)
unfolding track_forwarders track
track_forwarders-Same now [] w v h = h
track_forwarders-Same now (f ∷ forwarders) w v h =
    track_forwarders-Same now forwarders w _ (record {
      config = h.config;
      state = h.state;
      visitors = h.visitors;
      forwarders = h.forwarders;
    })

same : (w : ClientWorld) → SameButTrackers w w
same w = record { config = refl; state = refl; visitors = refl; forwarders = refl }

task_configs :
    (sys : System) (m : ClientStatsManager) (fs : List ForwarderConfig)
    → map (λ (t : ForwarderTask). t.config) (map (forwarder_task sys m) fs) ≡ fs
unfolding forwarder_task
task_configs sys m [] = refl
task_configs sys m (f ∷ fs) = ap (◌∷◌ f) (task_configs sys m fs)

-- The visitors of a configuration that a list of rejected proxies, as "name:port", leaves to be started.
abbrev pub IsSelection : List Str → List VisitorConfig → List VisitorConfig → Type 0
IsSelection rejected [] started = started ≡ []
IsSelection rejected (v ∷ visitors) started =
    ((contains (with_port v.name v.publish_port) rejected ≡ true)
      × IsSelection rejected visitors started)
    ⊎ ((contains (with_port v.name v.publish_port) rejected ≡ false)
        × ((rest : List VisitorConfig) × (started ≡ v ∷ rest) × IsSelection rejected visitors rest))

startable-IsSelection :
    (rejected : List Str) (visitors : List VisitorConfig)
    → IsSelection rejected visitors (startable rejected visitors)
unfolding startable visitor_key
startable-IsSelection rejected [] = refl
startable-IsSelection rejected (v ∷ visitors) =
    elim (Bool-cases (contains (with_port v.name v.publish_port) rejected)) [
      | inl out ↦ rw out (inl (refl, startable-IsSelection rejected visitors))
      | inr in_ ↦
          rw in_ (
            inr
              (refl, (startable rejected visitors, refl, startable-IsSelection rejected visitors)))
    ]

module _ (config : ClientFullConfig) where
  -- No listener has been started and no stream been taken.
  abbrev pub IsQuiet : ClientWorld → List (ℕ × Option ProxyConfig) → Type 0
  IsQuiet w served = (w.visitor_listeners ≡ []) × (w.forwarder_listeners ≡ []) × (served ≡ [])

  -- The listeners of every forwarder, and of the visitors that an answer did not reject, have been started once.
  abbrev pub IsStartedBut : List Str → ClientWorld → Type 0
  IsStartedBut rejected w =
      IsSelection rejected config.visitors w.visitor_listeners
      × (map (λ (t : ForwarderTask). t.config) w.forwarder_listeners ≡ config.forwarders)

  pub IsQuiet-Same :
      (w v : ClientWorld) (served : List (ℕ × Option ProxyConfig))
      → SameButTrackers w v
      → IsQuiet w served
      → IsQuiet v served
  IsQuiet-Same w v served h q = (h.visitors ∙ q.0, h.forwarders ∙ q.1, q.2)

  -- The listeners that are started where none was.
  pub start_listeners-IsStarted :
      (setup : Setup) (rejected : List Str) (w : ClientWorld)
      (served : List (ℕ × Option ProxyConfig))
      → w.config ≡ config
      → IsQuiet w served
      → IsStartedBut rejected (start_listeners setup rejected w)
        × ((start_listeners setup rejected w).config ≡ config)
        × ((start_listeners setup rejected w).state ≡ w.state)
  unfolding start_listeners
  start_listeners-IsStarted setup rejected w served own q =
      let kept = track_forwarders-Same setup.now w.config.forwarders w w (same w) in
      let m = (track_forwarders setup.now w.config.forwarders w).stats_manager in
      (
        (
          subst (IsSelection rejected config.visitors)
              (sym (
                ap (λ vs. vs ++ startable rejected w.config.visitors) q.0
                ∙ ap (λ (k : ClientFullConfig). startable rejected k.visitors) own))
              (startable-IsSelection rejected config.visitors),
          ap
                (λ fs.
                  map (λ (t : ForwarderTask). t.config)
                    (fs ++ map (forwarder_task setup.sys m) w.config.forwarders))
                q.1
              ∙ task_configs setup.sys m w.config.forwarders
              ∙ ap (λ (k : ClientFullConfig). k.forwarders) own,
        ),
        kept.config ∙ own,
        kept.state,
      )

-- The rejected proxies that an answer names, at the head of the events that wait to be taken.
abbrev pub Names : List ControlEvent → List Str → Type 0
Names [] rejected = ⊥
Names (authentication_success client_id ∷ events) rejected = ⊥
Names (authentication_failed reason ∷ events) rejected = ⊥
Names (config_accepted ∷ events) rejected = rejected ≡ []
Names (config_partially_rejected names ∷ events) rejected = rejected ≡ names
Names (config_rejected names ∷ events) rejected = ⊥
Names (connection_closed ∷ events) rejected = ⊥

-- `Answered` are the lists of rejected proxies of the answers that came.
module _ (config : ClientFullConfig) (Answered : List Str → Type 0) where
  abbrev pub IsStarted : ClientWorld → Type 0
  IsStarted w = (rejected : List Str) × Answered rejected × IsStartedBut config rejected w

  -- What holds in each state, where `a` answers to the authentication and `c` to the submission may still come.
  abbrev pub Phase : ClientState → ℕ → ℕ → ClientWorld → List (ℕ × Option ProxyConfig) → Type 0
  Phase authenticating a c w served = (a ≤ 1) × (c ≡ 0) × IsQuiet config w served
  Phase authenticated a c w served = ⊥
  Phase configuring_proxy a c w served = (a ≡ 0) × (c ≤ 1) × IsQuiet config w served
  Phase running a c w served = (a ≡ 0) × (c ≡ 0) × IsStarted w

  pub record IsOrderly (s : Session) : Type 0 where
    pub configured : s.world.config ≡ config
    pub phase :
        Phase s.world.state
          (tokens authentication s.channel)
          (tokens configuration s.channel)
          s.world
          s.served

  -- The phase stays when answers get fewer.
  pub Phase-fewer :
      (st : ClientState) (a b c d : ℕ) (w : ClientWorld) (served : List (ℕ × Option ProxyConfig))
      → b ≤ a
      → d ≤ c
      → Phase st a c w served
      → Phase st b d w served
  Phase-fewer authenticating a b c d w served h k p = (omega (arith, p.0), omega (arith, p.1), p.2)
  Phase-fewer authenticated a b c d w served h k p = p
  Phase-fewer configuring_proxy a b c d w served h k p =
      (omega (arith, p.0), omega (arith, p.1), p.2)
  Phase-fewer running a b c d w served h k p = (omega (arith, p.0), omega (arith, p.1), p.2)

  pub Phase-shut_down :
      (st : ClientState) (a c : ℕ) (w : ClientWorld) (served : List (ℕ × Option ProxyConfig))
      → Phase st a c w served
      → Phase st a c (record w { shut_down = true }) served
  Phase-shut_down authenticating a c w served p = p
  Phase-shut_down authenticated a c w served p = p
  Phase-shut_down configuring_proxy a c w served p = p
  Phase-shut_down running a c w served p = p
