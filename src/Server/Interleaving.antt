-- ===== src/Server/Interleaving.antt =====
-- The event loops of src/server/mod.rs side by side, from the view of one session: between its events the
-- others do what they do to the registry.
use tls_tunnel.Prelude.{
  ℕ, ◌≡◌, refl, sym, ap, subst, Bool, true, false, Bool-cases, Option, none, some, List, [], ◌∷◌,
  arith, nat_eq, list_eq, pair_eq, inl, inr, if◌then◌else◌, if_both, ◌∙◌, All,
}
use tls_tunnel.Config.Types.{ProxyConfig, VisitorConfig}
use tls_tunnel.Server.World.{Shared, ProxyRegistry, world_new}
use tls_tunnel.Server.World.{ServerWorld, configuring_proxy, send, cleanup}
use tls_tunnel.Server.Submission.{Interference, submit}
use tls_tunnel.Server.Session.{
  Session, Event, is_authenticated, stop, continue_if, on_authenticate, on_submit, on_event, step,
  begin, authenticate_request, submit_config_request, inbound_stream, stream_request, heartbeat,
  exception_notice,
}
use tls_tunnel.Server.Ownership.{OwnsNothing}
use tls_tunnel.Server.Sharing.{
  Accounts, Accounted, Respects, Considerate, session_view, on_event-Accounted, submit-IsViewed,
  registered,
}

abbrev pub Turn : Type 0
Turn = (ProxyRegistry → ProxyRegistry) × Event

unfoldable pub meanwhile : (ProxyRegistry → ProxyRegistry) → Session → Session
meanwhile f s = record s {
  shared = record (s.shared) { proxy_registry = f s.shared.proxy_registry };
}

unfoldable pub run_among : (ℕ → Bool) → Session → List Turn → Session
unfolding meanwhile
run_among delivers s [] = s
run_among delivers s ((f, e) ∷ turns) = run_among delivers (step delivers (meanwhile f s) e) turns

abbrev pub IsFair : ℕ → Turn → Type 0
IsFair stream_tx (f, e) = Respects stream_tx f × Considerate stream_tx e

meanwhile-Accounted :
    (f : ProxyRegistry → ProxyRegistry) (s : Session)
    → Respects s.world.stream_tx f
    → Accounted s
    → Accounted (meanwhile f s)
unfolding meanwhile
meanwhile-Accounted f s fair owns = elim (Bool-cases s.stopped) [
  | inl t ↦ rw t (λ key. fair _ key ∙ (rw t at owns) key)
  | inr t ↦ rw t (λ key. (rw t at owns) key ∙ sym (fair _ key))
]

abbrev pub HasChannel : ℕ → Session → Type 0
HasChannel stream_tx s = s.world.stream_tx ≡ stream_tx

pub submit_channel :
    (delivers : ℕ → Bool) (others : Interference) (w : ServerWorld) (s : Shared) (id now : ℕ)
    (ps : List ProxyConfig) (vs : List VisitorConfig)
    → (submit delivers others w s id now ps vs).world.stream_tx ≡ w.stream_tx
unfolding registered
submit_channel delivers others w s id now ps vs =
    elim (submit-IsViewed delivers others w s id now ps vs) [
      | inl same ↦ ap (λ v. v.0) same
      | inr filled ↦ ap (λ v. v.0) filled
    ]

continue_if_channel :
    (o : Option Bool) (s : Session) → HasChannel s.world.stream_tx (continue_if o s)
unfolding continue_if stop cleanup
continue_if_channel (some true) s = refl
continue_if_channel (some false) s = refl
continue_if_channel none s = refl

on_submit-HasChannel :
    (delivers : ℕ → Bool) (s : Session) (id now : ℕ) (others : Interference) (ps : List ProxyConfig)
    (vs : List VisitorConfig)
    → HasChannel s.world.stream_tx (on_submit delivers s id now others ps vs)
unfolding on_submit stop cleanup
on_submit-HasChannel delivers s id now others ps vs =
    let r =
      submit delivers others (record (s.world) { session_state = configuring_proxy }) s.shared id
        now ps vs in
    if_both (HasChannel s.world.stream_tx) (is_authenticated s.world.session_state)
      (continue_if_channel r.result (record s { world = r.world; shared = r.shared })
        ∙ submit_channel delivers others _ s.shared id now ps vs)
      refl

on_event-HasChannel :
    (delivers : ℕ → Bool) (s : Session) (e : Event)
    → HasChannel s.world.stream_tx (on_event delivers s e)
unfolding on_event on_authenticate stop cleanup send
on_event-HasChannel delivers s (authenticate_request id auth_key client_id) = ground arith
on_event-HasChannel delivers s (submit_config_request id now others ps vs) =
    on_submit-HasChannel delivers s id now others ps vs
on_event-HasChannel delivers s (inbound_stream stream) = ground arith
on_event-HasChannel delivers s (stream_request response opened) = ground arith
on_event-HasChannel delivers s heartbeat = refl
on_event-HasChannel delivers s (exception_notice m) = ground arith
on_event-HasChannel delivers s _ = refl

step_stopped :
    (delivers : ℕ → Bool) (s : Session) (e : Event) → s.stopped ≡ true → step delivers s e ≡ s
unfolding step
step_stopped delivers s e t = ap (λ b. if b then s else on_event delivers s e) t

step_live :
    (delivers : ℕ → Bool) (s : Session) (e : Event)
    → s.stopped ≡ false
    → step delivers s e ≡ on_event delivers s e
unfolding step
step_live delivers s e t = ap (λ b. if b then s else on_event delivers s e) t

step-Accounted :
    (delivers : ℕ → Bool) (s : Session) (e : Event)
    → Considerate s.world.stream_tx e
    → Accounted s
    → Accounted (step delivers s e)
step-Accounted delivers s e fair owns = elim (Bool-cases s.stopped) [
  | inl t ↦ subst Accounted (sym (step_stopped delivers s e t)) owns
  | inr t ↦
      subst Accounted (sym (step_live delivers s e t))
        (on_event-Accounted delivers s e fair t (subst (λ b. Accounts b (session_view s)) t owns))
]

step-HasChannel :
    (delivers : ℕ → Bool) (s : Session) (e : Event)
    → HasChannel s.world.stream_tx (step delivers s e)
unfolding step
step-HasChannel delivers s e =
    if_both (HasChannel s.world.stream_tx) s.stopped refl (on_event-HasChannel delivers s e)

run_among-Accounted_from :
    (delivers : ℕ → Bool) (stream_tx : ℕ) (s : Session) (turns : List Turn)
    → HasChannel stream_tx s
    → All (IsFair stream_tx) turns
    → Accounted s
    → Accounted (run_among delivers s turns)
unfolding run_among meanwhile
run_among-Accounted_from delivers stream_tx s [] c fair owns = owns
run_among-Accounted_from delivers stream_tx s ((f, e) ∷ turns) c fair owns =
    let now = meanwhile f s in
    run_among-Accounted_from delivers stream_tx (step delivers now e) turns
      (step-HasChannel delivers now e ∙ c) fair.1
      (step-Accounted delivers now e (subst (λ tx. Considerate tx e) (sym c) fair.0.1)
        (meanwhile-Accounted f s (subst (λ tx. Respects tx f) (sym c) fair.0.0) owns))

-- Whatever a client sends, the control stream does and other sessions do to the registry in between,
-- if these neither take nor add registrations of this session's channel: while the session runs, its
-- list of keys names exactly its registrations, and once it has stopped no registration is left.
pub run_among-Accounted :
    (delivers : ℕ → Bool) (stream_tx : ℕ) (shared : Shared) (turns : List Turn)
    → OwnsNothing stream_tx shared.proxy_registry
    → All (IsFair stream_tx) turns
    → Accounted (run_among delivers (begin stream_tx shared) turns)
unfolding begin world_new
run_among-Accounted delivers stream_tx shared turns free fair =
    run_among-Accounted_from delivers stream_tx (begin stream_tx shared) turns refl fair
      (λ key. sym (free key))
