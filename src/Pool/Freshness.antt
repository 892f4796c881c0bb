-- ===== src/Pool/Freshness.antt =====
-- Which socket `AddressPool::get_connection` of src/connection_pool.rs hands out.
use tls_tunnel.Prelude.{
  ℕ, ◌+◌, ◌-◌, ◌≤◌, ◌<◌, ◌∙◌, ◌≡◌, refl, ap, inl, inr, ◌⊎◌, List, [], ◌∷◌, arith, length, retain,
  not, All, Any, Bool, true, ok, err, Bool-cases,
}
use tls_tunnel.Pool.Address.{
  PooledConnection, AddressPool, Connect, connected, refused, timed_out, PoolError, cleanup_expired,
  connect_new, pop_or_connect, get_connection, is_expired,
}

-- A pooled socket that was used at most `max_idle_time` before `now`.
abbrev pub IsFresh : AddressPool → ℕ → ℕ → PooledConnection → Type 0
IsFresh p now stream c = (c.stream ≡ stream) × (now - c.last_used ≤ p.config.max_idle_time)

-- A socket that is handed out comes from the idle list, within its idle time, or is new; a new one
-- is opened only below the limit.
abbrev pub Handed : AddressPool → ℕ → Connect → ℕ → Type 0
Handed p now c stream =
    Any (IsFresh p now stream) p.idle_connections
    ⊎ ((c ≡ connected stream)
        × (p.active_count + length (cleanup_expired p now).idle_connections < p.config.max_size))

head_of_retain :
    (f : PooledConnection → Bool) (l rest : List PooledConnection) (x : PooledConnection)
    → retain f l ≡ x ∷ rest
    → Any (λ c. (c ≡ x) × (f c ≡ true)) l
head_of_retain f [] rest x e = cc
head_of_retain f (y ∷ l) rest x e = elim (Bool-cases (f y)) [
  | inl t ↦ inl (ground arith, t)
  | inr t ↦ inr (head_of_retain f l rest x (ground arith))
]

IsFresh-of_retained :
    (p : AddressPool) (now : ℕ) (x : PooledConnection) (l : List PooledConnection)
    → Any (λ c. (c ≡ x) × (not (is_expired c p.config.max_idle_time now) ≡ true)) l
    → Any (IsFresh p now x.stream) l
unfolding is_expired
IsFresh-of_retained p now x [] h = elim h [ ]
IsFresh-of_retained p now x (y ∷ l) (inl h) =
    inl (ap (λ (c : PooledConnection). c.stream) h.0, ground arith)
IsFresh-of_retained p now x (y ∷ l) (inr h) = inr (IsFresh-of_retained p now x l h)

connect_new-ok :
    (p : AddressPool) (c : Connect) (stream : ℕ)
    → (connect_new p c).1 ≡ ok stream
    → (c ≡ connected stream)
      × (p.active_count + length p.idle_connections < p.config.max_size)
      × ((connect_new p c).0.active_count ≡ p.active_count + 1)
unfolding connect_new
connect_new-ok p (connected s) stream e = ground arith
connect_new-ok p refused stream e = ground arith
connect_new-ok p timed_out stream e = ground arith

connect_new-err :
    (p : AddressPool) (c : Connect) (x : PoolError)
    → (connect_new p c).1 ≡ err x
    → (connect_new p c).0 ≡ p
unfolding connect_new
connect_new-err p (connected s) x e = ground arith
connect_new-err p refused x e = ground arith
connect_new-err p timed_out x e = ground arith

-- A successful `get_connection` hands out an idle socket that is not expired, or, below the limit,
-- the socket that it connected; either way it counts one more socket in use.
pub get_connection-Handed :
    (p : AddressPool) (now : ℕ) (c : Connect) (stream : ℕ)
    → (get_connection p now c).1 ≡ ok stream
    → Handed p now c stream × ((get_connection p now c).0.active_count ≡ p.active_count + 1)
unfolding get_connection cleanup_expired
get_connection-Handed p now c stream e = go (retain keep p.idle_connections) refl e
  where
    keep : PooledConnection → Bool
    keep x = not (is_expired x p.config.max_idle_time now)

    go :
        (l : List PooledConnection)
        → retain keep p.idle_connections ≡ l
        → (pop_or_connect l (cleanup_expired p now) c).1 ≡ ok stream
        → Handed p now c stream
          × ((pop_or_connect l (cleanup_expired p now) c).0.active_count ≡ p.active_count + 1)
    go [] r h =
        let new = connect_new-ok (cleanup_expired p now) c stream h in
        (inr (new.0, omega (arith, new.1, ap length r)), new.2)
    go (x ∷ l) r h = (
      ground (
        arith,
        IsFresh-of_retained p now x p.idle_connections
            (head_of_retain keep p.idle_connections l x r),
      ),
      refl,
    )

expired_of_retained :
    (p : AddressPool) (now : ℕ) (l : List PooledConnection)
    → retain (λ x. not (is_expired x p.config.max_idle_time now)) l ≡ []
    → All (λ x. p.config.max_idle_time < now - x.last_used) l
unfolding is_expired
expired_of_retained p now [] e = tt
expired_of_retained p now (x ∷ l) e = ground (arith, expired_of_retained p now l)

-- A failed `get_connection` found every idle socket expired, and counts no socket in use.
pub get_connection_failed :
    (p : AddressPool) (now : ℕ) (c : Connect) (x : PoolError)
    → (get_connection p now c).1 ≡ err x
    → All (λ i. p.config.max_idle_time < now - i.last_used) p.idle_connections
      × ((get_connection p now c).0 ≡ record p { idle_connections = [] })
unfolding get_connection cleanup_expired
get_connection_failed p now c x e = go (retain keep p.idle_connections) refl e
  where
    keep : PooledConnection → Bool
    keep i = not (is_expired i p.config.max_idle_time now)

    go :
        (l : List PooledConnection)
        → retain keep p.idle_connections ≡ l
        → (pop_or_connect l (cleanup_expired p now) c).1 ≡ err x
        → All (λ i. p.config.max_idle_time < now - i.last_used) p.idle_connections
          × ((pop_or_connect l (cleanup_expired p now) c).0 ≡ record p { idle_connections = [] })
    go [] r h = (
      expired_of_retained p now p.idle_connections r,
      connect_new-err (cleanup_expired p now) c x h
          ∙ ap (λ (i : List PooledConnection). record p { idle_connections = i }) r,
    )
    go (i ∷ l) r h = cc
