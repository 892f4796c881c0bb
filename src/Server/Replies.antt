-- ===== src/Server/Replies.antt =====
-- What the answers of `handle_proxy_config_submission` in src/server/mod.rs promise to the client.
use tls_tunnel.Prelude.{
  ℕ, ◌≡◌, ◌≢◌, Bool, true, false, some, List, [], ◌∷◌, ◌++◌, map, All, Distinct, Str, arith, nat_eq,
  list_eq, pair_eq, pair_beq_iff, beq_refl, contains, lookup, has_key, with_port, Bool-cases, inl,
  inr, ◌⊎◌, All-map, if◌then◌else◌,
}
use tls_tunnel.Config.Types.{ProxyConfig, VisitorConfig}
use tls_tunnel.Server.World.{
  ProxyRegistry, Key, info_of, Message, config_accepted, config_partially_rejected, config_rejected,
  all_rejected_notice, partial_rejection_notice,
}
use tls_tunnel.Server.Submission.{proxy_key, taken, unresolved, register}
use tls_tunnel.Server.Ownership.{claim, register-Fills}

abbrev pub text_of : ProxyConfig → Str
text_of p = with_port p.name p.publish_port

abbrev pub wanted : VisitorConfig → Key
wanted v = (v.name, v.publish_port)

-- The registry has the proxy as this session's.
abbrev pub IsServed : ℕ → ProxyRegistry → ProxyConfig → Type 0
IsServed stream_tx r p =
    lookup (p.name, p.publish_port) r
    ≡ some (record { stream_tx = stream_tx; proxy_info = info_of p })

abbrev pub Resolves : ProxyRegistry → VisitorConfig → Type 0
Resolves r v = has_key (wanted v) r ≡ true

-- What is not served or does not resolve stands in the list.
abbrev pub IsTold : ℕ → ProxyRegistry → List ProxyConfig → List VisitorConfig → List Str → Type 0
IsTold stream_tx r ps vs rejected =
    All (λ p. IsServed stream_tx r p ⊎ (contains (text_of p) rejected ≡ true)) ps
    × All (λ v. Resolves r v ⊎ (contains (with_port v.name v.publish_port) rejected ≡ true)) vs

-- What a message says of the registry before the submission and behind it.
abbrev pub IsTrue :
    ℕ → ProxyRegistry → ProxyRegistry → List ProxyConfig → List VisitorConfig → Message → Type 0
IsTrue stream_tx r r' ps vs (config_accepted id) =
    All (IsServed stream_tx r') ps × All (Resolves r') vs
IsTrue stream_tx r r' ps vs (config_partially_rejected id rejected) =
    IsTold stream_tx r' ps vs rejected
IsTrue stream_tx r r' ps vs (config_rejected id reason) = r' ≡ r
IsTrue stream_tx r r' ps vs (all_rejected_notice rejected) = r' ≡ r
IsTrue stream_tx r r' ps vs (partial_rejection_notice rejected) = IsTold stream_tx r' ps vs rejected
IsTrue stream_tx r r' ps vs _ = ⊥

module _ (stream_tx : ℕ) where
  claim_other :
      (q : ProxyConfig) (qs ps : List ProxyConfig)
      → All (λ n. q.name ≢ n) (map (λ p. p.name) ps)
      → All
          (λ p.
            claim stream_tx (p.name, p.publish_port) qs
            ≡ some (record { stream_tx = stream_tx; proxy_info = info_of p }))
          ps
      → All
          (λ p.
            claim stream_tx (p.name, p.publish_port) (q ∷ qs)
            ≡ some (record { stream_tx = stream_tx; proxy_info = info_of p }))
          ps
  unfolding claim proxy_key
  claim_other q qs [] h k = tt
  claim_other q qs (p ∷ ps) h k = (
    ground (arith, h.0, k.0, pair_beq_iff (q.name, q.publish_port) (p.name, p.publish_port)),
    claim_other q qs ps h.1 k.1,
  )

  pub claim_self :
      (ps : List ProxyConfig)
      → Distinct (map (λ p. p.name) ps)
      → All
          (λ p.
            claim stream_tx (p.name, p.publish_port) ps
            ≡ some (record { stream_tx = stream_tx; proxy_info = info_of p }))
          ps
  unfolding claim proxy_key
  claim_self [] d = tt
  claim_self (p ∷ ps) d = (
    ground (arith, beq_refl p.name, beq_refl p.publish_port),
    claim_other p ps ps d.0 (claim_self ps d.1),
  )

pub contains_more :
    (k : Str) (xs ys : List Str) → contains k xs ≡ true → contains k (xs ++ ys) ≡ true
contains_more k [] ys h = ground arith
contains_more k (x ∷ xs) ys h = ground (arith, contains_more k xs ys)

pub contains_behind :
    (k : Str) (xs ys : List Str) → contains k ys ≡ true → contains k (xs ++ ys) ≡ true
contains_behind k [] ys h = h
contains_behind k (x ∷ xs) ys h = ground (arith, contains_behind k xs ys)

module _ (stream_tx : ℕ) (keys : List Key) (r : ProxyRegistry) (all : List ProxyConfig) where
  abbrev pub ServedOrIn : List Str → ProxyConfig → Type 0
  ServedOrIn rejected p =
      IsServed stream_tx (register stream_tx keys r all).1 p
      ⊎ (contains (text_of p) rejected ≡ true)

  mark_more :
      (p : ProxyConfig) (b : Bool) (x : Str) (xs : List Str)
      → ServedOrIn xs p
      → ServedOrIn (if b then x ∷ xs else xs) p
  mark_more p true x xs (inl h) = inl h
  mark_more p true x xs (inr h) = inr (contains_behind (text_of p) (x ∷ []) xs h)
  mark_more p false x xs h = h

  -- A proxy that the pre-check did not find is served by the registration behind it.
  pub served_or_taken :
      (ps : List ProxyConfig)
      → All
          (λ p.
            claim stream_tx (p.name, p.publish_port) all
            ≡ some (record { stream_tx = stream_tx; proxy_info = info_of p }))
          ps
      → All (ServedOrIn (taken r ps)) ps
  unfolding taken proxy_key
  served_or_taken [] h = tt
  served_or_taken (p ∷ ps) h =
      let rest =
        All-map ps (λ q. mark_more q (has_key (p.name, p.publish_port) r) (text_of p) (taken r ps))
          (served_or_taken ps h.1) in
      let filled = (register-Fills stream_tx all keys r).filled (p.name, p.publish_port) in
      elim (Bool-cases (has_key (p.name, p.publish_port) r)) [
        | inl t ↦ (inr (ground (arith, t, beq_refl (text_of p))), rest)
        | inr t ↦ (inl (ground (arith, t, filled, h.0)), rest)
      ]

told_more :
    (r : ProxyRegistry) (v : VisitorConfig) (b : Bool) (x : Str) (xs : List Str)
    → Resolves r v ⊎ (contains (with_port v.name v.publish_port) xs ≡ true)
    → Resolves r v ⊎ (contains (with_port v.name v.publish_port) (if b then xs else x ∷ xs) ≡ true)
told_more r v true x xs h = h
told_more r v false x xs (inl h) = inl h
told_more r v false x xs (inr h) =
    inr (contains_behind (with_port v.name v.publish_port) (x ∷ []) xs h)

pub resolved_or_told :
    (r : ProxyRegistry) (vs : List VisitorConfig)
    → All
        (λ v. Resolves r v ⊎ (contains (with_port v.name v.publish_port) (unresolved r vs) ≡ true))
        vs
unfolding unresolved
resolved_or_told r [] = tt
resolved_or_told r (v ∷ vs) =
    let b = has_key (wanted v) r in
    let rest =
      All-map vs (λ q. told_more r q b (with_port v.name v.publish_port) (unresolved r vs))
        (resolved_or_told r vs) in
    elim (Bool-cases b) [
      | inl t ↦ (inl t, rest)
      | inr t ↦ (inr (ground (arith, t, beq_refl (with_port v.name v.publish_port))), rest)
    ]
