-- ===== src/Server/Isolation.antt =====
-- What one session of src/server/mod.rs can do to the registrations of the others: nothing.
use tls_tunnel.Prelude.{
  ℕ, ◌≡◌, refl, sym, ap, subst, Bool, true, false, Option, none, some, List, [], ◌∷◌, Str, arith,
  ◌==◌, nat_eq, list_eq, pair_eq, inl, inr, if◌then◌else◌, if_both, contains, lookup, ◌∙◌,
}
use tls_tunnel.Config.Types.{ProxyConfig, VisitorConfig}
use tls_tunnel.Server.World.{
  Shared, ProxyRegistry, ProxyRegistration, Key, ServerWorld, Message, auth_success, auth_failure,
  configuring_proxy, send, cleanup,
}
use tls_tunnel.Server.Submission.{undisturbed, proxy_key, register, submit}
use tls_tunnel.Server.Session.{
  Session, Event, is_running, is_authenticated, stop, continue_if, on_authenticate, on_submit,
  on_event, authenticate_request, submit_config_request, inbound_stream, stream_request, heartbeat,
  exception_notice,
}
use tls_tunnel.Server.Interleaving.{submit_channel}
use tls_tunnel.Server.Ownership.{
  owned_by, register-Fills, lookup-remove_keys, KeepsOthers, IsFreeOr, IsKept, or_else, claim,
}
use tls_tunnel.Server.Sharing.{
  Accounts, Accounted, view-send, View, view, session_view, registered, submit-IsViewed,
  submit-Accounts,
}

KeepsOthers-refl : (stream_tx : ℕ) (r : ProxyRegistry) → KeepsOthers stream_tx r r
KeepsOthers-refl stream_tx r key = inl refl

IsKept-trans :
    (stream_tx : ℕ) (a b c : Option ProxyRegistration)
    → IsKept stream_tx a b
    → IsKept stream_tx b c
    → IsKept stream_tx a c
IsKept-trans stream_tx a b c (inl same) (inl kept) = inl (kept ∙ same)
IsKept-trans stream_tx a b c (inl same) (inr (free, own)) =
    inr (subst (IsFreeOr stream_tx) same free, own)
IsKept-trans stream_tx a b c (inr (free, own)) (inl kept) =
    inr (free, subst (IsFreeOr stream_tx) (sym kept) own)
IsKept-trans stream_tx a b c (inr (free, _)) (inr (_, own)) = inr (free, own)

claim-IsFreeOr :
    (stream_tx : ℕ) (key : Key) (ps : List ProxyConfig)
    → IsFreeOr stream_tx (claim stream_tx key ps)
unfolding claim
claim-IsFreeOr stream_tx key [] = tt
claim-IsFreeOr stream_tx key (p ∷ ps) =
    if_both (IsFreeOr stream_tx) (proxy_key p == key) refl (claim-IsFreeOr stream_tx key ps)

or_else-IsKept :
    (stream_tx : ℕ) (a b : Option ProxyRegistration)
    → IsFreeOr stream_tx b
    → IsKept stream_tx a (or_else a b)
or_else-IsKept stream_tx none b h = inr (tt, h)
or_else-IsKept stream_tx (some a) b h = inl refl

register-KeepsOthers :
    (stream_tx : ℕ) (ps : List ProxyConfig) (keys : List Key) (r : ProxyRegistry)
    → KeepsOthers stream_tx r (register stream_tx keys r ps).1
register-KeepsOthers stream_tx ps keys r key =
    subst (IsKept stream_tx (lookup key r)) (sym ((register-Fills stream_tx ps keys r).filled key))
      (or_else-IsKept stream_tx (lookup key r) (claim stream_tx key ps)
        (claim-IsFreeOr stream_tx key ps))

-- A key that is taken away when it is owned.
removed-IsKept :
    (stream_tx : ℕ) (b : Bool) (a : Option ProxyRegistration)
    → b ≡ owned_by stream_tx a
    → IsKept stream_tx a (if b then none else a)
unfolding owned_by
removed-IsKept stream_tx false a h = inl refl
removed-IsKept stream_tx true none h = inl refl
removed-IsKept stream_tx true (some a) h = inr (ground arith, tt)

stop-KeepsOthers :
    (s : Session)
    → Accounts false (session_view s)
    → KeepsOthers s.world.stream_tx s.shared.proxy_registry (stop s).shared.proxy_registry
unfolding stop cleanup
stop-KeepsOthers s owns key =
    let r = s.shared.proxy_registry in
    subst (IsKept s.world.stream_tx (lookup key r))
      (sym (lookup-remove_keys s.world.proxy_keys r key))
      (removed-IsKept s.world.stream_tx (contains key s.world.proxy_keys) (lookup key r) (owns key))

submit-KeepsOthers :
    (delivers : ℕ → Bool) (w : ServerWorld) (s : Shared) (id now : ℕ) (ps : List ProxyConfig)
    (vs : List VisitorConfig)
    → KeepsOthers w.stream_tx s.proxy_registry
        (submit delivers undisturbed w s id now ps vs).shared.proxy_registry
unfolding registered
submit-KeepsOthers delivers w s id now ps vs =
    let P : View → Type 0 = λ v. KeepsOthers w.stream_tx s.proxy_registry v.2 in
    elim (submit-IsViewed delivers undisturbed w s id now ps vs) [
      | inl same ↦ subst P (sym same) (KeepsOthers-refl w.stream_tx s.proxy_registry)
      | inr filled ↦
          subst P (sym filled) (register-KeepsOthers w.stream_tx ps w.proxy_keys s.proxy_registry)
    ]

submit-undisturbed-Accounts :
    (delivers : ℕ → Bool) (w : ServerWorld) (s : Shared) (id now : ℕ) (ps : List ProxyConfig)
    (vs : List VisitorConfig)
    → Accounts false (view w s)
    → (let r = submit delivers undisturbed w s id now ps vs in
        Accounts false (view r.world r.shared))
submit-undisturbed-Accounts delivers w s id now ps vs owns =
    submit-Accounts delivers undisturbed w s id now ps vs (λ r key. refl) (λ r key. refl) owns

live-Accounts : (s : Session) → s.stopped ≡ false → Accounted s → Accounts false (session_view s)
live-Accounts s live owns = subst (λ b. Accounts b (session_view s)) live owns

abbrev pub IsAlone : Event → Type 0
IsAlone (submit_config_request id now others ps vs) = others ≡ undisturbed
IsAlone _ = Unit

-- What an event does to the registry keeps the registrations of other sessions.
abbrev pub SessionKeeps : Session → Session → Type 0
SessionKeeps s s' = KeepsOthers s.world.stream_tx s.shared.proxy_registry s'.shared.proxy_registry

abbrev SameAt : Session → Key → Session → Type 0
SameAt s key s' =
    IsKept s.world.stream_tx (lookup key s.shared.proxy_registry)
      (lookup key s'.shared.proxy_registry)

stop_kept :
    (s s' : Session)
    → s'.world.stream_tx ≡ s.world.stream_tx
    → SessionKeeps s s'
    → Accounts false (session_view s')
    → SessionKeeps s (stop s')
stop_kept s s' c kept owns key =
    IsKept-trans s.world.stream_tx _ (lookup key s'.shared.proxy_registry) _ (kept key) (
      subst (λ tx. KeepsOthers tx s'.shared.proxy_registry (stop s').shared.proxy_registry) c
        (stop-KeepsOthers s' owns) key)

continue_if-KeepsOthers :
    (o : Option Bool) (s s' : Session)
    → s'.world.stream_tx ≡ s.world.stream_tx
    → SessionKeeps s s'
    → Accounts false (session_view s')
    → SessionKeeps s (continue_if o s')
unfolding continue_if
continue_if-KeepsOthers (some true) s s' c kept owns = kept
continue_if-KeepsOthers (some false) s s' c kept owns = stop_kept s s' c kept owns
continue_if-KeepsOthers none s s' c kept owns = stop_kept s s' c kept owns

on_submit-KeepsOthers :
    (delivers : ℕ → Bool) (s : Session) (id now : ℕ) (ps : List ProxyConfig)
    (vs : List VisitorConfig)
    → Accounts false (session_view s)
    → SessionKeeps s (on_submit delivers s id now undisturbed ps vs)
unfolding on_submit
on_submit-KeepsOthers delivers s id now ps vs owns =
    let w = record (s.world) { session_state = configuring_proxy } in
    let r = submit delivers undisturbed w s.shared id now ps vs in
    if_both (SessionKeeps s) (is_authenticated s.world.session_state)
      (continue_if-KeepsOthers r.result s (record s { world = r.world; shared = r.shared })
        (submit_channel delivers undisturbed w s.shared id now ps vs)
        (submit-KeepsOthers delivers w s.shared id now ps vs)
        (submit-undisturbed-Accounts delivers w s.shared id now ps vs owns))
      (stop-KeepsOthers s owns)

sent_stop :
    (delivers : ℕ → Bool) (s : Session) (m : Message)
    → Accounts false (session_view s)
    → SessionKeeps s (stop (record s { world = (send delivers s.world m).0 }))
sent_stop delivers s m owns =
    let same = view-send delivers s.world m s.shared in
    stop_kept s (record s { world = (send delivers s.world m).0 }) (ap (λ v. v.0) same)
      (KeepsOthers-refl s.world.stream_tx s.shared.proxy_registry)
      (subst (Accounts false) (sym same) owns)

on_authenticate-KeepsOthers :
    (delivers : ℕ → Bool) (s : Session) (id : ℕ) (auth_key : Str) (client_id : ℕ)
    → Accounts false (session_view s)
    → SessionKeeps s (on_authenticate delivers s id auth_key client_id)
unfolding on_authenticate
on_authenticate-KeepsOthers delivers s id auth_key client_id owns =
    let refl_kept = KeepsOthers-refl s.world.stream_tx s.shared.proxy_registry in
    if_both (SessionKeeps s) (auth_key == s.shared.config.auth_key)
      (if_both (SessionKeeps s) (send delivers s.world (auth_success id client_id)).1 refl_kept
        (sent_stop delivers s (auth_success id client_id) owns))
      (sent_stop delivers s (auth_failure id) owns)

-- Without interference in the middle, an event of a running session leaves every registration of
-- another session: what it changes was free or its own, before and behind.
pub on_event-KeepsOthers :
    (delivers : ℕ → Bool) (s : Session) (e : Event)
    → IsAlone e
    → s.stopped ≡ false
    → Accounted s
    → SessionKeeps s (on_event delivers s e)
unfolding on_event
on_event-KeepsOthers delivers s (authenticate_request id auth_key client_id) alone live owns key =
    on_authenticate-KeepsOthers delivers s id auth_key client_id (live-Accounts s live owns) key
on_event-KeepsOthers delivers s (submit_config_request id now others ps vs) alone live owns key =
    subst (λ o. SessionKeeps s (on_submit delivers s id now o ps vs)) (sym alone)
      (on_submit-KeepsOthers delivers s id now ps vs (live-Accounts s live owns)) key
on_event-KeepsOthers delivers s (inbound_stream stream) alone live owns key =
    if_both (SameAt s key) (is_running s.world.session_state) (inl refl) (inl refl)
on_event-KeepsOthers delivers s (stream_request response opened) alone live owns key =
    if_both (SameAt s key) (is_running s.world.session_state)
      (if_both (SameAt s key) opened (inl refl) (inl refl)) (inl refl)
on_event-KeepsOthers delivers s heartbeat alone live owns key = inl refl
on_event-KeepsOthers delivers s (exception_notice m) alone live owns key = inl refl
on_event-KeepsOthers delivers s _ alone live owns key =
    stop-KeepsOthers s (live-Accounts s live owns) key
