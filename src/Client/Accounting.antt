-- ===== src/Client/Accounting.antt =====
-- What a round of src/client/stream.rs does to the pool's count of connections in use.
use tls_tunnel.Prelude.{
  ℕ, ◌+◌, ◌-◌, ◌≡◌, refl, ap, sym, ◌∙◌, true, false, Option, none, some, Option-cases, inl, inr,
  if_both, Str, arith, Outcome, ok, err, lookup-insert_self, nat_eq, list_eq, zero, suc, ◌<◌,
}
use tls_tunnel.Config.Types.{ProxyType, should_reuse_connections}
use tls_tunnel.Pool.Address.{AddressPool, Connect, PoolError, Probe}
use tls_tunnel.Pool.Address
use tls_tunnel.Pool.Freshness.{get_connection-Handed, get_connection_failed}
use tls_tunnel.Pool.Manager.{ConnectionPool, entry, put, modify}
use tls_tunnel.Pool.Manager
use tls_tunnel.Client.Local.{connected_to, direct_attempts, after_pool, connect_local}
use tls_tunnel.Client.Stream.{Round, settle, after_connect, round}

-- The connections of an address that count as in use.
unfoldable pub in_use : ConnectionPool → Str → ℕ
in_use m address = (entry m address).active_count

entry-put :
    (m : ConnectionPool) (address : Str) (p : AddressPool) → entry (put m address p) address ≡ p
unfolding entry put
entry-put m address p = rw (lookup-insert_self address p m.pools, entry) refl

modify-put :
    (m : ConnectionPool) (address : Str) (p : AddressPool) (f : AddressPool → AddressPool)
    → modify (put m address p) address f ≡ put (put m address p) address (f p)
unfolding modify put
modify-put m address p f = rw (lookup-insert_self address p m.pools, modify) refl

in_use-put :
    (m : ConnectionPool) (address : Str) (p : AddressPool)
    → in_use (put m address p) address ≡ p.active_count
unfolding in_use
in_use-put m address p = ap (λ (q : AddressPool). q.active_count) (entry-put m address p)

in_use-modify :
    (m : ConnectionPool) (address : Str) (p : AddressPool) (f : AddressPool → AddressPool)
    → in_use (modify (put m address p) address f) address ≡ (f p).active_count
in_use-modify m address p f =
    ap (λ q. in_use q address) (modify-put m address p f)
    ∙ in_use-put (put m address p) address (f p)

-- An attempt that fails is not the one that is answered.
not_here :
    (attempt k : ℕ) (answers : ℕ → Option ℕ) (stream : ℕ)
    → answers attempt ≡ none
    → answers (attempt + k) ≡ some stream
    → 0 < k
not_here attempt zero answers stream refused e =
    let here : attempt + 0 ≡ attempt = omega arith in
    absurd (cc (sym (ap answers here) ∙ e, refused))
not_here attempt (suc k) answers stream refused e = omega arith

-- Where one of the attempts that are left is answered, the direct connection succeeds.
some_attempt :
    (left attempt k : ℕ) (answers : ℕ → Option ℕ) (stream : ℕ)
    → k < left
    → answers (attempt + k) ≡ some stream
    → (s : ℕ) × (direct_attempts left attempt answers
        ≡ connected_to (record { stream = s; pooled = false }))
unfolding direct_attempts
some_attempt zero attempt k answers stream h e = absurd (omega arith)
some_attempt (suc zero) attempt k answers stream h e =
    let here : attempt + k ≡ attempt = omega (arith, h) in
    (stream, rw (sym (ap answers here) ∙ e, direct_attempts) refl)
some_attempt (suc (suc left)) attempt k answers stream h e = elim (Option-cases (answers attempt)) [
  | inl refused ↦
      let behind = not_here attempt k answers stream refused e in
      let next : attempt + 1 + (k - 1) ≡ attempt + k = omega (arith, behind) in
      let (s, is) =
        some_attempt (suc left) (attempt + 1) (k - 1) answers stream (omega (arith, h, behind))
          (ap answers next ∙ e) in
      (s, rw (refused, direct_attempts) is)
  | inr (s, got) ↦ (s, rw (got, direct_attempts) refl)
]

returned :
    (p : AddressPool) (stream : ℕ) (probe : Probe) (now : ℕ)
    → (Address.return_connection p stream probe now).active_count ≡ p.active_count - 1
unfolding Address.return_connection
returned p stream probe now = ground arith

module _ (m : ConnectionPool) (address : Str) (proxy_type : ProxyType) (r : Round)
    (p : AddressPool) where
  settle_pooled :
      (stream : ℕ)
      → in_use
          (settle
            (put m address p)
            address
            proxy_type
            r
            (record { stream = stream; pooled = true }))
          address
        ≡ p.active_count - 1
  unfolding settle Manager.return_connection Manager.discard_connection Address.discard_connection
  settle_pooled stream =
      let P = λ (q : ConnectionPool). in_use q address ≡ p.active_count - 1 in
      let given_up = in_use-modify m address p (λ q. Address.discard_connection q stream) in
      if_both P r.copied
        (if_both P (should_reuse_connections proxy_type)
          (in_use-modify m address p (λ q. Address.return_connection q stream r.probe r.later)
            ∙ returned p stream r.probe r.later)
          given_up)
        given_up

  settle_direct :
      (stream : ℕ)
      → r.copied ≡ true
      → in_use
          (settle
            (put m address p)
            address
            proxy_type
            r
            (record { stream = stream; pooled = false }))
          address
        ≡ p.active_count - 1
  unfolding settle Manager.discard_connection Address.discard_connection
  settle_direct stream h =
      let P = λ (q : ConnectionPool). in_use q address ≡ p.active_count - 1 in
      rw h (in_use-modify m address p (λ q. Address.discard_connection q stream))

module _ (m : ConnectionPool) (address : Str) (proxy_type : ProxyType) (max_retries : ℕ)
    (r : Round) where
  got : AddressPool × Outcome PoolError ℕ
  got = Address.get_connection (entry m address) r.now r.pool_answer

  after_get : Outcome PoolError ℕ → ConnectionPool
  unfolding got
  after_get o =
      (after_connect address proxy_type r
        (after_pool max_retries r.answers (put m address got.0, o))).0

  -- The round as it goes on behind the pool's answer.
  round_is :
      should_reuse_connections proxy_type ≡ true
      → (round m address proxy_type max_retries r).0 ≡ after_get got.1
  unfolding round connect_local after_get Manager.get got
  round_is reuses = rw reuses refl

  -- A round that gets its connection from the pool leaves the count of connections in use as it was, whether
  -- the copying ends well or not.
  pub round_pooled :
      (stream : ℕ)
      → should_reuse_connections proxy_type ≡ true
      → (Manager.get m address r.now r.pool_answer).1 ≡ ok stream
      → in_use (round m address proxy_type max_retries r).0 address ≡ in_use m address
  unfolding got after_get in_use Manager.get after_pool after_connect
  round_pooled stream reuses e =
      let handed = get_connection-Handed (entry m address) r.now r.pool_answer stream e in
      ap (λ q. in_use q address) (round_is reuses ∙ ap after_get e)
      ∙ settle_pooled m address proxy_type r got.0 stream
      ∙ omega (arith, handed.1)

  -- A round whose pool refuses, and which then connects directly, with any of its attempts, and copies well, takes
  -- one connection off the count of those in use although it had none of them.
  pub round_unpooled :
      (x : PoolError) (k stream : ℕ)
      → should_reuse_connections proxy_type ≡ true
      → (Manager.get m address r.now r.pool_answer).1 ≡ err x
      → k < max_retries
      → r.answers (1 + k) ≡ some stream
      → r.copied ≡ true
      → in_use (round m address proxy_type max_retries r).0 address ≡ in_use m address - 1
  unfolding got after_get in_use Manager.get after_pool after_connect
  round_unpooled x k stream reuses e some_left answered copied =
      let kept = get_connection_failed (entry m address) r.now r.pool_answer x e in
      let (s, connected) = some_attempt max_retries 1 k r.answers stream some_left answered in
      ap (λ q. in_use q address)
        (round_is reuses
          ∙ ap after_get e
          ∙ ap (λ c. (after_connect address proxy_type r (put m address got.0, c)).0) connected)
      ∙ settle_direct m address proxy_type r got.0 s copied
      ∙ ap (λ (q : AddressPool). q.active_count - 1) kept.1
