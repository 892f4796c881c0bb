-- ===== src/Pool/Bounds.antt =====
-- How many connections an address pool of src/connection_pool.rs holds.
use tls_tunnel.Prelude.{
  ℕ, zero, suc, ◌+◌, ◌-◌, ◌^◌, ◌≤◌, ◌<◌, ◌≡◌, refl, ap, ◌∙◌, List, [], ◌∷◌, arith, length,
  length-retain-le, Str,
}
use tls_tunnel.Pool.Address.{
  PoolConfig, PooledConnection, AddressPool, Connect, connected, refused, timed_out, warm_one,
  Probe, pool_new, cleanup_expired, pop_or_connect, get_connection, return_connection,
  discard_connection, warmup_rounds, warmup,
}

-- The calls that a client makes on the pool of one address.
pub data Call : Type 0 where
  gets : ℕ → Connect → Call
  returns : ℕ → Probe → ℕ → Call
  discards : ℕ → Call
  cleans : ℕ → Call

unfoldable pub step : AddressPool → Call → AddressPool
step p (gets now c) = (get_connection p now c).0
step p (returns stream probe now) = return_connection p stream probe now
step p (discards stream) = discard_connection p stream
step p (cleans now) = cleanup_expired p now

unfoldable pub run : AddressPool → List Call → AddressPool
unfolding step
run p [] = p
run p (c ∷ cs) = run (step p c) cs

pub record IsBounded (p : AddressPool) : Type 0 where
  pub within : p.active_count + length p.idle_connections ≤ p.config.max_size
  pub fits : p.config.max_size < 2 ^ 64

cleanup-IsBounded : (p : AddressPool) (now : ℕ) → IsBounded p → IsBounded (cleanup_expired p now)
unfolding cleanup_expired
cleanup-IsBounded p now h = record {
  within = omega (arith, length-retain-le {0}, h.within);
  fits = h.fits;
}

pop_or_connect-IsBounded :
    (l : List PooledConnection) (p : AddressPool) (c : Connect)
    → p.idle_connections ≡ l
    → IsBounded p
    → IsBounded (pop_or_connect l p c).0
unfolding pop_or_connect
pop_or_connect-IsBounded [] p c e h = ground arith
pop_or_connect-IsBounded (x ∷ l) p c e h = ground (arith, ap length e)

get-IsBounded :
    (p : AddressPool) (now : ℕ) (c : Connect) → IsBounded p → IsBounded (get_connection p now c).0
unfolding get_connection
get-IsBounded p now c h = pop_or_connect-IsBounded _ _ c refl (cleanup-IsBounded p now h)

return-IsBounded :
    (p : AddressPool) (stream now : ℕ) (probe : Probe)
    → IsBounded p
    → IsBounded (return_connection p stream probe now)
unfolding return_connection
return-IsBounded p stream now probe h = ground arith

get_connection-config :
    (l : List PooledConnection) (p : AddressPool) (c : Connect)
    → (pop_or_connect l p c).0.config ≡ p.config
unfolding pop_or_connect
get_connection-config [] p c = ground arith
get_connection-config (x ∷ l) p c = refl

-- No call changes the configuration of the pool.
pub step-config : (p : AddressPool) (c : Call) → (step p c).config ≡ p.config
unfolding step get_connection cleanup_expired return_connection discard_connection
step-config p (gets now c) = get_connection-config _ _ c
step-config p (returns stream probe now) = ground arith
step-config p (discards stream) = refl
step-config p (cleans now) = refl

-- Every call keeps the connections in use and the idle ones together within `max_size`.
pub step-IsBounded : (p : AddressPool) (c : Call) → IsBounded p → IsBounded (step p c)
unfolding step discard_connection
step-IsBounded p (gets now c) h = get-IsBounded p now c h
step-IsBounded p (returns stream probe now) h = return-IsBounded p stream now probe h
step-IsBounded p (discards stream) h = ground arith
step-IsBounded p (cleans now) h = cleanup-IsBounded p now h

run-IsBounded : (p : AddressPool) (cs : List Call) → IsBounded p → IsBounded (run p cs)
unfolding run
run-IsBounded p [] h = h
run-IsBounded p (c ∷ cs) h = run-IsBounded (step p c) cs (step-IsBounded p c h)

-- Each round of a warm-up adds one idle connection at most, and touches nothing else.
pub record Warmed (p q : AddressPool) (n : ℕ) : Type 0 where
  pub active : q.active_count ≡ p.active_count
  pub config : q.config ≡ p.config
  pub most : length q.idle_connections ≤ length p.idle_connections + n

warm_one-Warmed : (p : AddressPool) (now : ℕ) (c : Connect) → Warmed p (warm_one p now c) 1
unfolding warm_one
warm_one-Warmed p now (connected stream) = record {
  active = refl;
  config = refl;
  most = omega arith;
}
warm_one-Warmed p now refused = record { active = refl; config = refl; most = omega arith }
warm_one-Warmed p now timed_out = record { active = refl; config = refl; most = omega arith }

Warmed-trans : {p q r : AddressPool} (m n : ℕ) → Warmed p q m → Warmed q r n → Warmed p r (m + n)
Warmed-trans m n h k = record {
  active = k.active ∙ h.active;
  config = k.config ∙ h.config;
  most = omega (arith, h.most, k.most);
}

warmup_rounds-Warmed :
    (p : AddressPool) (now n : ℕ) (answers : ℕ → Connect)
    → Warmed p (warmup_rounds p now n answers) n
unfolding warmup_rounds
warmup_rounds-Warmed p now zero answers = record {
  active = refl;
  config = refl;
  most = omega arith;
}
warmup_rounds-Warmed p now (suc n) answers =
    let one = warm_one-Warmed p now (answers n) in
    let rest = warmup_rounds-Warmed (warm_one p now (answers n)) now n answers in
    record {
      active = rest.active ∙ one.active;
      config = rest.config ∙ one.config;
      most = omega (arith, one.most, rest.most);
    }

pub warmup-Warmed :
    (p : AddressPool) (now : ℕ) (answers : ℕ → Connect)
    → Warmed p (warmup p now answers) (p.config.min_idle - length p.idle_connections)
unfolding warmup
warmup-Warmed p now answers = warmup_rounds-Warmed p now _ answers

-- A warm-up keeps the limit where the connections in use leave room for `min_idle` more.
pub warmup-IsBounded :
    (p : AddressPool) (now : ℕ) (answers : ℕ → Connect)
    → IsBounded p
    → p.active_count + p.config.min_idle ≤ p.config.max_size
    → IsBounded (warmup p now answers)
warmup-IsBounded p now answers h room =
    let w = warmup-Warmed p now answers in
    let limit = ap (λ (c : PoolConfig). c.max_size) w.config in
    record {
      within = omega (arith, w.active, w.most, limit, h.within);
      fits = omega (arith, limit, h.fits);
    }

-- A pool that is warmed up before its first use, with `min_idle` within `max_size`, never holds
-- more than `max_size` connections, in use and idle, whatever is called and however it fails.
pub run-warmup-IsBounded :
    (address : Str) (config : PoolConfig) (now : ℕ) (answers : ℕ → Connect) (cs : List Call)
    → config.min_idle ≤ config.max_size
    → config.max_size < 2 ^ 64
    → IsBounded (run (warmup (pool_new address config) now answers) cs)
unfolding pool_new
run-warmup-IsBounded address config now answers cs h k =
    run-IsBounded _ cs
      (warmup-IsBounded _ now answers (record { within = omega arith; fits = k }) (omega arith))

-- All of the outcomes of `connect` that a warm-up asks for are connections.
abbrev pub AllConnect : (ℕ → Connect) → Type 0
AllConnect answers = (i : ℕ) → (stream : ℕ) × (answers i ≡ connected stream)

warm_one-connected :
    (p : AddressPool) (now : ℕ) (c : Connect) (stream : ℕ)
    → c ≡ connected stream
    → length (warm_one p now c).idle_connections ≡ length p.idle_connections + 1
unfolding warm_one
warm_one-connected p now c stream e = rw e (omega arith)

warmup_rounds-connected :
    (p : AddressPool) (now n : ℕ) (answers : ℕ → Connect)
    → AllConnect answers
    → length (warmup_rounds p now n answers).idle_connections ≡ length p.idle_connections + n
unfolding warmup_rounds
warmup_rounds-connected p now zero answers all = omega arith
warmup_rounds-connected p now (suc n) answers all = omega (
  arith,
  warm_one-connected p now (answers n) (all n).0 (all n).1,
  warmup_rounds-connected (warm_one p now (answers n)) now n answers all,
)

-- A warm-up does not look at `max_size`: where the connections in use leave no room for `min_idle`
-- more, and the address accepts connections, the pool ends above its limit.
pub warmup_overfills :
    (p : AddressPool) (now : ℕ) (answers : ℕ → Connect)
    → AllConnect answers
    → p.config.max_size < p.active_count + p.config.min_idle
    → ¬ IsBounded (warmup p now answers)
unfolding warmup
warmup_overfills p now answers all over h =
    let w = warmup-Warmed p now answers in
    absurd (
      omega (
        arith,
        h.within,
        w.active,
        ap (λ (c : PoolConfig). c.max_size) w.config,
        warmup_rounds-connected p now (p.config.min_idle - length p.idle_connections) answers all,
      ))
