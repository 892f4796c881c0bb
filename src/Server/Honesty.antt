-- ===== src/Server/Honesty.antt =====
-- The answers of `handle_proxy_config_submission` in src/server/mod.rs say what has happened.
use tls_tunnel.Prelude.{
  ℕ, ◌≡◌, refl, sym, ap, subst, Bool, true, false, not, ◌&&◌, List, [], ◌∷◌, ◌++◌, All, All-map,
  All-append, Distinct, map, length, ◌==◌, append_assoc, append_nil, Str, contains, nat_eq, list_eq,
  pair_eq, inl, inr, ◌⊎◌, ◌∙◌, if_both, Option-cases, Bool-cases,
}
use tls_tunnel.Config.Types.{ProxyConfig, VisitorConfig}
use tls_tunnel.Config.Validator.{is_empty}
use tls_tunnel.Server.World.{
  Shared, ProxyRegistry, Message, config_accepted, config_partially_rejected, config_rejected,
  all_rejected_notice, partial_rejection_notice, all_proxies, ServerWorld, send,
}
use tls_tunnel.Server.Submission.{
  undisturbed, taken, unresolved, refuse_from, register, Submitted, answer, conclude,
  accept_proxies, submit,
}
use tls_tunnel.Server.Sharing.{view-conclude}
use tls_tunnel.Server.Admission.{refuse_from_iff}
use tls_tunnel.Server.Replies.{
  IsTrue, IsTold, IsServed, Resolves, text_of, served_or_taken, resolved_or_told, contains_more,
  contains_behind, claim_self,
}
use tls_tunnel.Prelude.{with_port}

-- From one state of the control stream to a later one, only messages with the property were sent.
pub record Says (P : Message → Type 0) (sent sent' : List Message) : Type 0 where
  pub messages : List Message
  pub grown : sent' ≡ sent ++ messages
  pub each : All P messages

Says-refl : (P : Message → Type 0) (l : List Message) → Says P l l
Says-refl P l = record { messages = []; grown = sym (append_nil l); each = tt }

Says-trans :
    (P : Message → Type 0) (l l' l'' : List Message) → Says P l l' → Says P l' l'' → Says P l l''
Says-trans P l l' l'' h k = record {
  messages = h.messages ++ k.messages;
  grown = k.grown ∙ ap (λ x. x ++ k.messages) h.grown ∙ append_assoc l h.messages k.messages;
  each = All-append P h.messages k.messages h.each k.each;
}

send-Says :
    (P : Message → Type 0) (delivers : ℕ → Bool) (w : ServerWorld) (m : Message)
    → P m
    → Says P w.sent (send delivers w m).0.sent
unfolding send
send-Says P delivers w m h = elim (Bool-cases (delivers w.attempts)) [
  | inl t ↦ rw (t, send) (record { messages = m ∷ []; grown = refl; each = (h, tt) })
  | inr t ↦ rw (t, send) (Says-refl P w.sent)
]

none_told :
    {A : Type 0} (P : A → Type 0) (k : A → Str) (a : A) → P a ⊎ (contains (k a) [] ≡ true) → P a
none_told P k a (inl p) = p
none_told P k a (inr q) = absurd cc

in_front :
    (P : Type 0) (k : Str) (xs ys : List Str)
    → P ⊎ (contains k xs ≡ true)
    → P ⊎ (contains k (xs ++ ys) ≡ true)
in_front P k xs ys (inl p) = inl p
in_front P k xs ys (inr h) = inr (contains_more k xs ys h)

in_back :
    (P : Type 0) (k : Str) (xs ys : List Str)
    → P ⊎ (contains k ys ≡ true)
    → P ⊎ (contains k (xs ++ ys) ≡ true)
in_back P k xs ys (inl p) = inl p
in_back P k xs ys (inr h) = inr (contains_behind k xs ys h)

module _ (delivers : ℕ → Bool) (stream_tx : ℕ) (r : ProxyRegistry) (ps : List ProxyConfig)
    (vs : List VisitorConfig) where
  abbrev Said : ProxyRegistry → List Message → Submitted → Type 0
  Said r' sent o = Says (IsTrue stream_tx r r' ps vs) sent o.world.sent

  conclude-Says :
      (w : ServerWorld) (s : Shared) (id now : ℕ) (rejected : List Str)
      → IsTold stream_tx s.proxy_registry ps vs rejected
      → Said s.proxy_registry w.sent (conclude delivers w s id now ps rejected)
  unfolding conclude
  conclude-Says w s id now [] told =
      let P = IsTrue stream_tx r s.proxy_registry ps vs in
      let accepted = send-Says P delivers w (config_accepted id) (
        All-map ps (none_told (IsServed stream_tx s.proxy_registry) text_of) told.0,
        All-map vs (none_told (Resolves s.proxy_registry) (λ v. with_port v.name v.publish_port))
            told.1,
      ) in
      if_both (Said s.proxy_registry w.sent) (send delivers w (config_accepted id)).1 accepted
        accepted
  conclude-Says w s id now (x ∷ rejected) told =
      let P = IsTrue stream_tx r s.proxy_registry ps vs in
      let w' = (send delivers w (partial_rejection_notice (x ∷ rejected))).0 in
      let m = config_partially_rejected id (x ∷ rejected) in
      let both =
        Says-trans P w.sent w'.sent (send delivers w' m).0.sent
          (send-Says P delivers w (partial_rejection_notice (x ∷ rejected)) told)
          (send-Says P delivers w' m told) in
      if_both (Said s.proxy_registry w.sent) (send delivers w' m).1 both both

  IsTold-append :
      (r' : ProxyRegistry) (xs ys : List Str)
      → All (λ p. IsServed stream_tx r' p ⊎ (contains (text_of p) xs ≡ true)) ps
      → All (λ v. Resolves r' v ⊎ (contains (with_port v.name v.publish_port) ys ≡ true)) vs
      → IsTold stream_tx r' ps vs (xs ++ ys)
  IsTold-append r' xs ys h k = (
    All-map ps (λ p. in_front (IsServed stream_tx r' p) (text_of p) xs ys) h,
    All-map vs (λ v. in_back (Resolves r' v) (with_port v.name v.publish_port) xs ys) k,
  )

module _ (delivers : ℕ → Bool) (w : ServerWorld) (s : Shared) (id now : ℕ) (ps : List ProxyConfig)
    (vs : List VisitorConfig) where
  -- Every message of the submission is true of the registry it leaves.
  abbrev pub IsHonest : Submitted → Type 0
  IsHonest o =
      Says (IsTrue w.stream_tx s.proxy_registry o.shared.proxy_registry ps vs) w.sent o.world.sent

  accept_proxies-IsHonest :
      Distinct (map (λ p. p.name) ps)
      → IsHonest (accept_proxies delivers undisturbed w s id now ps vs (taken s.proxy_registry ps))
  unfolding accept_proxies
  accept_proxies-IsHonest d =
      let (keys, r) = register w.stream_tx w.proxy_keys s.proxy_registry ps in
      let w' = record w { proxy_keys = keys } in
      let s' = record s { proxy_registry = r } in
      let rejected = taken s.proxy_registry ps ++ unresolved r vs in
      let o = conclude delivers w' s' id now ps rejected in
      subst (λ x. Says (IsTrue w.stream_tx s.proxy_registry x ps vs) w.sent o.world.sent)
        (sym (ap (λ v. v.2) (view-conclude delivers w' s' id now ps rejected)))
        (conclude-Says delivers w.stream_tx s.proxy_registry ps vs w' s' id now rejected (
          IsTold-append delivers w.stream_tx s.proxy_registry ps vs r (taken s.proxy_registry ps)
            (unresolved r vs)
            (served_or_taken w.stream_tx w.proxy_keys s.proxy_registry ps ps
              (claim_self w.stream_tx ps d))
            (resolved_or_told r vs)))

  refused-IsHonest :
      (w' : ServerWorld) (m : Message) (b : Bool)
      → Says (IsTrue w.stream_tx s.proxy_registry s.proxy_registry ps vs) w.sent w'.sent
      → IsTrue w.stream_tx s.proxy_registry s.proxy_registry ps vs m
      → IsHonest (answer delivers w' s m b)
  unfolding answer
  refused-IsHonest w' m b before h =
      let P = IsTrue w.stream_tx s.proxy_registry s.proxy_registry ps vs in
      Says-trans P w.sent w'.sent (send delivers w' m).0.sent before (send-Says P delivers w' m h)

  -- Whatever is written to the control stream for a submission that no other session disturbs is true:
  -- acceptance, that every proxy is published for this session as submitted and every visitor finds its
  -- proxy; partial rejection, that this holds but for what it names; refusal, that the registry is the
  -- same as before.
  pub submit-IsHonest : IsHonest (submit delivers undisturbed w s id now ps vs)
  unfolding submit
  submit-IsHonest =
      let P = IsTrue w.stream_tx s.proxy_registry s.proxy_registry ps vs in
      elim (Option-cases (refuse_from s.config.bind_port [] [] ps)) [
        | inl passed ↦
            let rejected = taken s.proxy_registry ps in
            rw (passed, submit)
              (if_both IsHonest (not (is_empty ps) && length rejected == length ps)
                (refused-IsHonest (send delivers w (all_rejected_notice rejected)).0
                  (config_rejected id (all_proxies rejected)) false
                  (send-Says P delivers w (all_rejected_notice rejected) refl) refl)
                (accept_proxies-IsHonest ((refuse_from_iff s.config.bind_port ps).0 passed).names))
        | inr (reason, refused) ↦
            rw (refused, submit)
              (refused-IsHonest w (config_rejected id reason) false (Says-refl P w.sent) refl)
      ]
