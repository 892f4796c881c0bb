-- ===== src/Client/Local.antt =====
-- `connect_local` of src/client/connection.rs. A direct connection attempt is answered by its number,
-- which counts from 1.
use tls_tunnel.Prelude.{
  ℕ, zero, suc, ◌+◌, ◌<◌, ◌≢◌, Bool, true, false, Option, none, some, if◌then◌else◌, if_both, Str,
  arith, Outcome, ok, err, Option-cases, inl, inr,
}
use tls_tunnel.Config.Types.{ProxyType, should_reuse_connections}
use tls_tunnel.Pool.Address.{Connect, PoolError}
use tls_tunnel.Pool.Manager.{ConnectionPool}
use tls_tunnel.Pool.Manager

pub record LocalConn : Type 0 where
  pub stream : ℕ
  pub pooled : Bool

-- `panics` is the `unreachable!()` behind the loop.
pub data Connected : Type 0 where
  connected_to : LocalConn → Connected
  failed panics : Connected

-- `left` attempts are left when attempt number `attempt` is due.
unfoldable pub direct_attempts : ℕ → ℕ → (ℕ → Option ℕ) → Connected
direct_attempts zero attempt answers = panics
direct_attempts (suc zero) attempt answers = elim (answers attempt) [
  | some stream ↦ connected_to (record { stream = stream; pooled = false })
  | none ↦ failed
]
direct_attempts (suc (suc left)) attempt answers =
    let again = direct_attempts (suc left) (attempt + 1) answers in
    elim (answers attempt) [
      | some stream ↦ connected_to (record { stream = stream; pooled = false })
      | none ↦ again
    ]

unfoldable pub after_pool :
    ℕ → (ℕ → Option ℕ) → ConnectionPool × Outcome PoolError ℕ → ConnectionPool × Connected
unfolding direct_attempts
after_pool max_retries answers (pool, ok stream) =
    (pool, connected_to (record { stream = stream; pooled = true }))
after_pool max_retries answers (pool, err e) = (pool, direct_attempts max_retries 1 answers)

unfoldable pub connect_local :
    ConnectionPool → Str → ProxyType → ℕ → Connect → ℕ → (ℕ → Option ℕ) → ConnectionPool × Connected
unfolding after_pool
connect_local pool local_addr proxy_type now pool_answer max_retries answers =
    if should_reuse_connections proxy_type
    then after_pool max_retries answers (Manager.get pool local_addr now pool_answer)
    else (pool, direct_attempts max_retries 1 answers)

direct_attempts_end :
    (left attempt : ℕ) (answers : ℕ → Option ℕ)
    → 0 < left
    → direct_attempts left attempt answers ≢ panics
unfolding direct_attempts
direct_attempts_end zero attempt answers h e = absurd (omega arith)
direct_attempts_end (suc zero) attempt answers h e = elim (Option-cases (answers attempt)) [
  | inl refused ↦ cc (rw (refused, direct_attempts) at e)
  | inr (s, got) ↦ cc (rw (got, direct_attempts) at e)
]
direct_attempts_end (suc (suc left)) attempt answers h e = elim (Option-cases (answers attempt)) [
  | inl refused ↦
      direct_attempts_end (suc left) (attempt + 1) answers (omega arith)
        (rw (refused, direct_attempts) at e)
  | inr (s, got) ↦ cc (rw (got, direct_attempts) at e)
]

after_pool_ends :
    (max_retries : ℕ) (answers : ℕ → Option ℕ) (r : ConnectionPool × Outcome PoolError ℕ)
    → 0 < max_retries
    → (after_pool max_retries answers r).1 ≢ panics
unfolding after_pool
after_pool_ends max_retries answers (pool, ok stream) h e = cc
after_pool_ends max_retries answers (pool, err x) h e =
    direct_attempts_end max_retries 1 answers h e

-- With at least one attempt `connect_local` returns a connection or an error, whatever the pool and the
-- service answer; it never reaches its `unreachable!()`.
pub connect_local_ends :
    (pool : ConnectionPool) (local_addr : Str) (proxy_type : ProxyType) (now : ℕ)
    (pool_answer : Connect) (max_retries : ℕ) (answers : ℕ → Option ℕ)
    → 0 < max_retries
    → (connect_local pool local_addr proxy_type now pool_answer max_retries answers).1 ≢ panics
unfolding connect_local
connect_local_ends pool local_addr proxy_type now pool_answer max_retries answers h =
    if_both (λ (r : ConnectionPool × Connected). r.1 ≢ panics) (should_reuse_connections proxy_type)
      (after_pool_ends max_retries answers (Manager.get pool local_addr now pool_answer) h)
      (direct_attempts_end max_retries 1 answers h)
