-- ===== src/Server/Binding.antt =====
-- `start_proxy_listener_with_notify` of src/server/connection.rs up to the listener: the bind and its retries.
use tls_tunnel.Prelude.{
  ℕ, zero, suc, ◌+◌, ◌*◌, ◌<◌, ◌≡◌, refl, ap, sym, min, Bool, true, false, Option, none, some, List,
  [], ◌∷◌, leb, length, take, if◌then◌else◌, Outcome, ok, err, arith, Outcome-cases, inl, inr,
}
use tls_tunnel.Forwarder.Retry.{first_of}

abbrev pub max_bind_retries : ℕ
max_bind_retries = 10

abbrev pub initial_retry_delay_secs : ℕ
initial_retry_delay_secs = 2

abbrev pub max_retry_delay_secs : ℕ
max_retry_delay_secs = 60

-- The kinds of an error that its message tells apart.
pub data BindError : Type 0 where
  addr_in_use permission_denied other_error : BindError

-- What the owner of the proxy is told, at the level "warning" and at the level "error".
pub data ExceptionNotification : Type 0 where
  bind_retry : (retry_count retry_delay : ℕ) (error : BindError) → ExceptionNotification
  bind_failed : (error : BindError) → ExceptionNotification

-- What is sent, how long the task sleeps each time, and whether it goes on to listen.
pub record Bound : Type 0 where
  pub sent : List ExceptionNotification
  pub sleeps : List ℕ
  pub result : Outcome BindError (Unit {0})

abbrev pub notify :
    Bool → ExceptionNotification → List ExceptionNotification → List ExceptionNotification
notify has_tx n sent = if has_tx then n ∷ sent else sent

abbrev pub retried : Bool → ℕ → ℕ → BindError → Option Bound → Option Bound
retried has_tx retry_count retry_delay e none = none
retried has_tx retry_count retry_delay e (some b) = some (record b {
  sent = notify has_tx (bind_retry retry_count retry_delay e) b.sent;
  sleeps = retry_delay ∷ b.sleeps;
})

-- The loop, `none` out of fuel. The outcome of a bind is a function of how many came before it.
unfoldable pub bind_loop : ℕ → Bool → (ℕ → Outcome BindError (Unit {0})) → ℕ → ℕ → Option Bound
bind_loop zero has_tx bind retry_count retry_delay = none
bind_loop (suc fuel) has_tx bind retry_count retry_delay =
    let again =
      bind_loop fuel has_tx bind (retry_count + 1) (min (retry_delay * 2) max_retry_delay_secs) in
    elim (bind retry_count) [
      | ok listener ↦ some (record { sent = []; sleeps = []; result = ok tt })
      | err e ↦
          if leb (retry_count + 1) max_bind_retries
          then retried has_tx (retry_count + 1) retry_delay e again
          else some
              (record { sent = notify has_tx (bind_failed e) []; sleeps = []; result = err e })
    ]

-- One bind more than the retries.
unfoldable pub start_proxy_listener_with_notify :
    Bool → (ℕ → Outcome BindError (Unit {0})) → Option Bound
unfolding bind_loop
start_proxy_listener_with_notify has_tx bind =
    bind_loop (suc max_bind_retries) has_tx bind 0 initial_retry_delay_secs

-- The delays before the next `k` binds.
abbrev pub delays : ℕ → ℕ → List ℕ
delays zero delay = []
delays (suc k) delay = delay ∷ delays k (min (delay * 2) max_retry_delay_secs)

-- How many of `k` binds fail before one of them succeeds.
abbrev pub failures : ℕ → ℕ → (ℕ → Outcome BindError (Unit {0})) → ℕ
failures zero n bind = 0
failures (suc k) n bind = elim (bind n) [ ok listener ↦ 0 | err e ↦ suc (failures k (n + 1) bind) ]

-- With `k` retries left behind `n` failures.
pub record BindsWith (bind : ℕ → Outcome BindError (Unit {0})) (k n delay : ℕ) (b : Bound)
    : Type 0 where
  pub first : b.result ≡ first_of k n bind
  pub slept : b.sleeps ≡ take (failures k n bind) (delays k delay)
  pub told : length b.sent ≡ failures (suc k) n bind

abbrev pub Binds : (ℕ → Outcome BindError (Unit {0})) → ℕ → ℕ → ℕ → Option Bound → Type 0
Binds bind k n delay none = ⊥
Binds bind k n delay (some b) = BindsWith bind k n delay b

module _ (bind : ℕ → Outcome BindError (Unit {0})) where
  retried-Binds :
      (k n delay : ℕ) (e : BindError) (o : Option Bound)
      → bind n ≡ err e
      → Binds bind k (n + 1) (min (delay * 2) max_retry_delay_secs) o
      → Binds bind (suc k) n delay (retried true (n + 1) delay e o)
  retried-Binds k n delay e none failed h = h
  retried-Binds k n delay e (some b) failed h = record {
    first = rw (failed, first_of) h.first;
    slept =
        let more : failures (suc k) n bind ≡ suc (failures k (n + 1) bind) =
          rw (failed, failures) in
        rw more (ap (λ l. delay ∷ l) h.slept);
    told = rw (failed, failures) (ap suc h.told);
  }

  bind_loop-Binds :
      (k fuel n delay : ℕ)
      → k < fuel
      → n + k ≡ max_bind_retries
      → Binds bind k n delay (bind_loop fuel true bind n delay)
  unfolding bind_loop
  bind_loop-Binds k zero n delay h e = absurd (omega arith)
  bind_loop-Binds zero (suc fuel) n delay h e = elim (Outcome-cases (bind n)) [
    | inl (x, failed) ↦
        let last : leb (n + 1) max_bind_retries ≡ false = ground (arith, e) in
        rw (failed, bind_loop, last)
          (record { first = sym failed; slept = refl; told = rw (failed, failures) })
    | inr (x, done) ↦
        rw (done, bind_loop) (record { first = sym done; slept = refl; told = rw (done, failures) })
  ]
  bind_loop-Binds (suc k) (suc fuel) n delay h e = elim (Outcome-cases (bind n)) [
    | inl (x, failed) ↦
        let more : leb (n + 1) max_bind_retries ≡ true = ground (arith, e) in
        rw (failed, bind_loop, more)
          (retried-Binds k n delay x
            (bind_loop fuel true bind (n + 1) (min (delay * 2) max_retry_delay_secs)) failed
            (bind_loop-Binds k fuel (n + 1) (min (delay * 2) max_retry_delay_secs) (omega arith)
              (omega (arith, e))))
    | inr (x, done) ↦
        rw (done, bind_loop)
          (record {
            first = rw (done, first_of);
            slept = rw (done, failures);
            told = rw (done, failures);
          })
  ]

-- A proxy whose owner is told of failures tries to bind eleven times at most: it listens with the first bind
-- that succeeds, or gives up with the last error. Before each further bind it sleeps, two seconds first and
-- twice as long each time, but at most sixty, and each bind that fails is told to the owner once.
pub start_proxy_listener_with_notify-Binds :
    (bind : ℕ → Outcome BindError (Unit {0}))
    → Binds bind max_bind_retries 0 initial_retry_delay_secs
        (start_proxy_listener_with_notify true bind)
unfolding start_proxy_listener_with_notify
start_proxy_listener_with_notify-Binds bind =
    bind_loop-Binds bind max_bind_retries (suc max_bind_retries) 0 initial_retry_delay_secs
      (omega arith) (omega arith)
