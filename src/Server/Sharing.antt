-- ===== src/Server/Sharing.antt =====
-- The registry that the event loops of src/server/mod.rs share: each session keeps account of its own
-- registrations and leaves those of the others, whatever the others do in between.
use tls_tunnel.Prelude.{
  ℕ, ◌≡◌, sym, subst, Bool, true, false, Option, none, some, List, [], ◌++◌, Str, arith, ◌==◌,
  nat_eq, list_eq, pair_eq, Option-cases, inl, inr, if◌then◌else◌, if_both, lookup, ◌∙◌, ◌⊎◌,
}
use tls_tunnel.Config.Types.{ProxyConfig, VisitorConfig}
use tls_tunnel.Server.World.{
  Shared, ProxyRegistry, Key, ServerWorld, Message, auth_success, auth_failure, authenticated,
  configuring_proxy, send, cleanup,
}
use tls_tunnel.Server.Submission.{
  Interference, Submitted, register, answer, conclude, accept_proxies, submit, refuse_from,
  unresolved,
}
use tls_tunnel.Server.Session.{
  Session, Event, submit_config_request, is_running, is_authenticated, continue_if, stop,
  on_authenticate, on_submit, on_event, authenticate_request, heartbeat, connection_closed,
  event_stream_closed, inbound_stream, yamux_error, yamux_closed, read_error, control_stream_closed,
  stream_request, exception_notice,
}
use tls_tunnel.Server.Ownership.{
  owned_by, OwnsExactly, OwnsNothing, register-OwnsExactly, lookup-remove_keys,
}

-- A session's channel and keys, and a registry.
abbrev pub View : Type 0
View = ℕ × List Key × ProxyRegistry

abbrev pub view : ServerWorld → Shared → View
view w s = (w.stream_tx, w.proxy_keys, s.proxy_registry)

pub view-send :
    (delivers : ℕ → Bool) (w : ServerWorld) (m : Message) (s : Shared)
    → view (send delivers w m).0 s ≡ view w s
unfolding send
view-send delivers w m s = ground arith

pub view-answer :
    (delivers : ℕ → Bool) (w : ServerWorld) (s : Shared) (m : Message) (b : Bool)
    → (let r = answer delivers w s m b in view r.world r.shared ≡ view w s)
unfolding answer
view-answer delivers w s m b = view-send delivers w m s

pub view-conclude :
    (delivers : ℕ → Bool) (w : ServerWorld) (s : Shared) (id now : ℕ) (ps : List ProxyConfig)
    (rejected : List Str)
    → (let r = conclude delivers w s id now ps rejected in view r.world r.shared ≡ view w s)
unfolding conclude send
view-conclude delivers w s id now ps rejected = ground arith

-- The registration of a submission among what other sessions do before and behind it.
unfoldable pub registered : Interference → View → List ProxyConfig → View
registered others (stream_tx, keys, r) ps =
    let (keys', r') = register stream_tx keys (others.before_register r) ps in
    (stream_tx, keys', others.before_visitors r')

-- A submission ends with the view that it began with, or with the proxies registered.
abbrev pub IsViewed : Interference → View → List ProxyConfig → Submitted → Type 0
IsViewed others v ps r =
    (view r.world r.shared ≡ v) ⊎ (view r.world r.shared ≡ registered others v ps)

accept_proxies-IsViewed :
    (delivers : ℕ → Bool) (others : Interference) (w : ServerWorld) (s : Shared) (id now : ℕ)
    (ps : List ProxyConfig) (vs : List VisitorConfig) (rejected : List Str)
    → IsViewed others (view w s) ps (accept_proxies delivers others w s id now ps vs rejected)
unfolding registered accept_proxies
accept_proxies-IsViewed delivers others w s id now ps vs rejected =
    let (keys, r) =
      register w.stream_tx w.proxy_keys (others.before_register s.proxy_registry) ps in
    let r' = others.before_visitors r in
    inr (
      view-conclude delivers (record w { proxy_keys = keys }) (record s { proxy_registry = r' }) id
        now ps (rejected ++ unresolved r' vs))

pub submit-IsViewed :
    (delivers : ℕ → Bool) (others : Interference) (w : ServerWorld) (s : Shared) (id now : ℕ)
    (ps : List ProxyConfig) (vs : List VisitorConfig)
    → IsViewed others (view w s) ps (submit delivers others w s id now ps vs)
unfolding submit
submit-IsViewed delivers others w s id now ps vs =
    elim (Option-cases (refuse_from s.config.bind_port [] [] ps)) [
      | inl none_refused ↦
          rw (none_refused, submit)
            (if_both (IsViewed others (view w s) ps) _
              (inl (view-answer delivers _ s _ false ∙ view-send delivers w _ s))
              (accept_proxies-IsViewed delivers others w s id now ps vs _))
      | inr (r, refused) ↦ rw (refused, submit) (inl (view-answer delivers w s _ false))
    ]

-- The invariant of a session: while it runs its keys are its registrations, then it has none.
abbrev pub Accounts : Bool → View → Type 0
Accounts stopped (stream_tx, keys, r) =
    if stopped then OwnsNothing stream_tx r else OwnsExactly stream_tx keys r

-- What another session may do to the registry: it neither takes nor adds what holds this channel.
abbrev pub Respects : ℕ → (ProxyRegistry → ProxyRegistry) → Type 0
Respects stream_tx f =
    (r : ProxyRegistry) (key : Key)
    → owned_by stream_tx (lookup key (f r)) ≡ owned_by stream_tx (lookup key r)

abbrev pub Considerate : ℕ → Event → Type 0
Considerate stream_tx (submit_config_request id now others ps vs) =
    Respects stream_tx others.before_register × Respects stream_tx others.before_visitors
Considerate stream_tx _ = Unit

pub registered-Accounts :
    (others : Interference) (stream_tx : ℕ) (keys : List Key) (r : ProxyRegistry)
    (ps : List ProxyConfig)
    → Respects stream_tx others.before_register
    → Respects stream_tx others.before_visitors
    → Accounts false (stream_tx, keys, r)
    → Accounts false (registered others (stream_tx, keys, r) ps)
unfolding registered
registered-Accounts others stream_tx keys r ps before behind owns key =
    let mid =
      register-OwnsExactly stream_tx ps keys (others.before_register r)
        (λ k. owns k ∙ sym (before r k)) key in
    mid ∙ sym (behind _ key)

pub submit-Accounts :
    (delivers : ℕ → Bool) (others : Interference) (w : ServerWorld) (s : Shared) (id now : ℕ)
    (ps : List ProxyConfig) (vs : List VisitorConfig)
    → Respects w.stream_tx others.before_register
    → Respects w.stream_tx others.before_visitors
    → Accounts false (view w s)
    → (let r = submit delivers others w s id now ps vs in Accounts false (view r.world r.shared))
submit-Accounts delivers others w s id now ps vs before behind owns =
    elim (submit-IsViewed delivers others w s id now ps vs) [
      | inl same ↦ subst (Accounts false) (sym same) owns
      | inr filled ↦ subst (Accounts false) (sym filled) (
          registered-Accounts others w.stream_tx w.proxy_keys s.proxy_registry ps before behind
            owns)
    ]

abbrev pub session_view : Session → View
session_view s = view s.world s.shared

abbrev pub Accounted : Session → Type 0
Accounted s = Accounts s.stopped (session_view s)

pub stop-Accounted : (s : Session) → Accounts false (session_view s) → Accounted (stop s)
unfolding stop cleanup owned_by
stop-Accounted s owns key =
    ground (arith, owns key, lookup-remove_keys s.world.proxy_keys s.shared.proxy_registry key)

live-Accounted : (s : Session) → s.stopped ≡ false → Accounts false (session_view s) → Accounted s
live-Accounted s live owns = rw live owns

on_authenticate-Accounted :
    (delivers : ℕ → Bool) (s : Session) (id : ℕ) (auth_key : Str) (client_id : ℕ)
    → s.stopped ≡ false
    → Accounts false (session_view s)
    → Accounted (on_authenticate delivers s id auth_key client_id)
unfolding on_authenticate
on_authenticate-Accounted delivers s id auth_key client_id live owns =
    let sent =
      λ (m : Message). subst (Accounts false) (sym (view-send delivers s.world m s.shared)) owns in
    let w = (send delivers s.world (auth_success id client_id)).0 in
    let done = record s {
      world = record w { client_id = some client_id; session_state = authenticated };
    } in
    if_both Accounted (auth_key == s.shared.config.auth_key)
      (if_both Accounted (send delivers s.world (auth_success id client_id)).1
        (live-Accounted done live (sent (auth_success id client_id)))
        (stop-Accounted (record s { world = (send delivers s.world (auth_success id client_id)).0 })
          (sent (auth_success id client_id))))
      (stop-Accounted (record s { world = (send delivers s.world (auth_failure id)).0 })
        (sent (auth_failure id)))

continue_if-Accounted :
    (o : Option Bool) (s : Session)
    → s.stopped ≡ false
    → Accounts false (session_view s)
    → Accounted (continue_if o s)
unfolding continue_if
continue_if-Accounted (some true) s live owns = rw live owns
continue_if-Accounted (some false) s live owns = stop-Accounted s owns
continue_if-Accounted none s live owns = stop-Accounted s owns

on_submit-Accounted :
    (delivers : ℕ → Bool) (s : Session) (id now : ℕ) (others : Interference) (ps : List ProxyConfig)
    (vs : List VisitorConfig)
    → Considerate s.world.stream_tx (submit_config_request id now others ps vs)
    → s.stopped ≡ false
    → Accounts false (session_view s)
    → Accounted (on_submit delivers s id now others ps vs)
unfolding on_submit
on_submit-Accounted delivers s id now others ps vs fair live owns =
    let w = record (s.world) { session_state = configuring_proxy } in
    let r = submit delivers others w s.shared id now ps vs in
    if_both Accounted (is_authenticated s.world.session_state)
      (continue_if-Accounted r.result (record s { world = r.world; shared = r.shared }) live
        (submit-Accounts delivers others w s.shared id now ps vs fair.0 fair.1 owns))
      (stop-Accounted s owns)

pub on_event-Accounted :
    (delivers : ℕ → Bool) (s : Session) (e : Event)
    → Considerate s.world.stream_tx e
    → s.stopped ≡ false
    → Accounts false (session_view s)
    → Accounted (on_event delivers s e)
unfolding on_event
on_event-Accounted delivers s (authenticate_request id auth_key client_id) fair live owns =
    on_authenticate-Accounted delivers s id auth_key client_id live owns
on_event-Accounted delivers s (submit_config_request id now others ps vs) fair live owns =
    on_submit-Accounted delivers s id now others ps vs fair live owns
on_event-Accounted delivers s heartbeat fair live owns = rw live owns
on_event-Accounted delivers s connection_closed fair live owns = stop-Accounted s owns
on_event-Accounted delivers s event_stream_closed fair live owns = stop-Accounted s owns
on_event-Accounted delivers s (inbound_stream stream) fair live owns =
    if_both Accounted (is_running s.world.session_state) (rw live owns) (rw live owns)
on_event-Accounted delivers s yamux_error fair live owns = stop-Accounted s owns
on_event-Accounted delivers s yamux_closed fair live owns = stop-Accounted s owns
on_event-Accounted delivers s read_error fair live owns = stop-Accounted s owns
on_event-Accounted delivers s control_stream_closed fair live owns = stop-Accounted s owns
on_event-Accounted delivers s (stream_request response opened) fair live owns =
    if_both Accounted (is_running s.world.session_state)
      (if_both Accounted opened (rw live owns) (rw live owns)) (rw live owns)
on_event-Accounted delivers s (exception_notice m) fair live owns =
    rw live (subst (Accounts false) (sym (view-send delivers s.world m s.shared)) owns)
