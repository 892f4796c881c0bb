-- ===== src/Server/Listeners.antt =====
-- `start_proxy_listeners_for_world` of src/server/mod.rs behind an answer that was written.
use tls_tunnel.Prelude.{
  ℕ, ◌≡◌, refl, ap, sym, Bool, true, some, List, [], ◌∷◌, ◌++◌, map, append_assoc, append_nil, Str,
  ◌∙◌, arith, if_both,
}
use tls_tunnel.Config.Types.{ProxyConfig}
use tls_tunnel.Stats.Manager.{StatsManager, register_proxy}
use tls_tunnel.Server.World.{
  Shared, ProxyInfo, info_of, Listener, ServerWorld, Message, config_accepted,
  config_partially_rejected, partial_rejection_notice, send,
}
use tls_tunnel.Server.Submission.{start_listeners, Submitted, conclude}

abbrev pub published : List Listener → List ProxyInfo
published tasks = map (λ t. t.0) tasks

map-append : (xs ys : List Listener) → published (xs ++ ys) ≡ published xs ++ published ys
map-append [] ys = refl
map-append (x ∷ xs) ys = ap (◌∷◌ x.0) (map-append xs ys)

start_listeners_all :
    (stats : StatsManager) (now : ℕ) (tasks : List Listener) (ps : List ProxyConfig)
    → published (start_listeners stats now tasks ps).1 ≡ published tasks ++ map info_of ps
unfolding start_listeners
start_listeners_all stats now tasks [] = sym (append_nil (published tasks))
start_listeners_all stats now tasks (p ∷ ps) =
    let (stats', tracker) =
      register_proxy stats p.name p.publish_addr p.publish_port p.local_port now in
    start_listeners_all stats' now (tasks ++ (info_of p, tracker) ∷ []) ps
    ∙ ap (λ x. x ++ map info_of ps) (map-append tasks ((info_of p, tracker) ∷ []))
    ∙ append_assoc (published tasks) (info_of p ∷ []) (map info_of ps)

send_listeners :
    (delivers : ℕ → Bool) (w : ServerWorld) (m : Message)
    → (send delivers w m).0.listeners ≡ w.listeners
unfolding send
send_listeners delivers w m = ground arith

abbrev pub StartsAll : ServerWorld → List ProxyConfig → Submitted → Type 0
StartsAll w ps o =
    o.result ≡ some true → published o.world.listeners ≡ published w.listeners ++ map info_of ps

-- Whatever proxies were rejected: once the answer is written, a listener is started for every proxy of
-- the submission, the rejected ones too, in order, and no other.
pub conclude-StartsAll :
    (delivers : ℕ → Bool) (w : ServerWorld) (s : Shared) (id now : ℕ) (ps : List ProxyConfig)
    (rejected : List Str)
    → StartsAll w ps (conclude delivers w s id now ps rejected)
unfolding conclude
conclude-StartsAll delivers w s id now ps [] =
    let w' = (send delivers w (config_accepted id)).0 in
    let same = send_listeners delivers w (config_accepted id) in
    if_both (StartsAll w ps) (send delivers w (config_accepted id)).1
      (λ h.
        start_listeners_all s.stats_manager now w'.listeners ps
        ∙ ap (λ l. published l ++ map info_of ps) same)
      (λ h. absurd cc)
conclude-StartsAll delivers w s id now ps (x ∷ rejected) =
    let n = (send delivers w (partial_rejection_notice (x ∷ rejected))).0 in
    let m = config_partially_rejected id (x ∷ rejected) in
    let w' = (send delivers n m).0 in
    let same =
      send_listeners delivers n m
      ∙ send_listeners delivers w (partial_rejection_notice (x ∷ rejected)) in
    if_both (StartsAll w ps) (send delivers n m).1
      (λ h.
        start_listeners_all s.stats_manager now w'.listeners ps
        ∙ ap (λ l. published l ++ map info_of ps) same)
      (λ h. absurd cc)
