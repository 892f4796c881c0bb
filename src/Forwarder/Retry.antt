-- ===== src/Forwarder/Retry.antt =====
-- `retry_with_backoff` of src/client/forwarder.rs. The outcome of an attempt is a function of its number.
use tls_tunnel.Prelude.{
  ℕ, zero, suc, ◌+◌, ◌-◌, ◌*◌, ◌≤◌, ◌<◌, ◌≡◌, refl, min, max, false, Option, none, some, List, [],
  ◌∷◌, leb, length, if◌then◌else◌, Outcome, ok, err, All, arith, Outcome-cases, inl, inr,
}

-- Times in milliseconds.
pub record RetryConfig : Type 0 where
  pub max_retries : ℕ  -- u32
  pub initial_backoff : ℕ
  pub max_backoff : ℕ

abbrev pub default_retry : RetryConfig
default_retry = record { max_retries = 3; initial_backoff = 100; max_backoff = 10000 }

module _ {E T : Type 0} where
  abbrev pub sleeping : ℕ → Option (Outcome E T × List ℕ) → Option (Outcome E T × List ℕ)
  sleeping backoff none = none
  sleeping backoff (some (result, sleeps)) = some (result, backoff ∷ sleeps)

  -- The loop, behind `attempt` failures: the result and the times slept, or `none` out of fuel.
  unfoldable pub retry_loop :
      ℕ → (ℕ → Outcome E T) → RetryConfig → ℕ → ℕ → Option (Outcome E T × List ℕ)
  retry_loop zero f config attempt backoff = none
  retry_loop (suc fuel) f config attempt backoff =
      let again = retry_loop fuel f config (attempt + 1) (min (backoff * 2) config.max_backoff) in
      elim (f attempt) [
        | ok result ↦ some (ok result, [])
        | err e ↦
            if leb config.max_retries (attempt + 1)
            then some (err e, [])
            else sleeping backoff again
      ]

  -- The fuel is one more than the retries, and every attempt uses one.
  unfoldable pub retry_with_backoff :
      (ℕ → Outcome E T) → RetryConfig → Option (Outcome E T × List ℕ)
  unfolding retry_loop
  retry_with_backoff f config =
      retry_loop (suc config.max_retries) f config 0 config.initial_backoff

  -- The first success of a number of attempts and one more, or the last error.
  abbrev pub first_of : ℕ → ℕ → (ℕ → Outcome E T) → Outcome E T
  first_of zero n f = f n
  first_of (suc k) n f = elim (f n) [ ok result ↦ ok result | err e ↦ first_of k (n + 1) f ]

  -- A run that ends with this result and sleeps at most `count` times, and no longer than `limit` at once.
  abbrev pub Ends : Outcome E T → ℕ → ℕ → Option (Outcome E T × List ℕ) → Type 0
  Ends result count limit none = ⊥
  Ends result count limit (some (r, sleeps)) =
      (r ≡ result) × (length sleeps ≤ count) × All (λ t. t ≤ limit) sleeps

  sleeping-Ends :
      (r : Outcome E T) (k limit backoff : ℕ) (o : Option (Outcome E T × List ℕ))
      → backoff ≤ limit
      → Ends r k limit o
      → Ends r (suc k) limit (sleeping backoff o)
  sleeping-Ends r k limit backoff none b h = h
  sleeping-Ends r k limit backoff (some (q, sleeps)) b h = (h.0, omega (arith, h.1), (b, h.2))

  retry_loop-Ends :
      (k fuel : ℕ) (f : ℕ → Outcome E T) (config : RetryConfig) (attempt backoff limit : ℕ)
      → k < fuel
      → config.max_retries - (attempt + 1) ≡ k
      → backoff ≤ limit
      → config.max_backoff ≤ limit
      → Ends (first_of k attempt f) k limit (retry_loop fuel f config attempt backoff)
  unfolding retry_loop
  retry_loop-Ends k zero f config attempt backoff limit h e b m = absurd (omega arith)
  retry_loop-Ends zero (suc fuel) f config attempt backoff limit h e b m = ground (arith, e)
  retry_loop-Ends (suc k) (suc fuel) f config attempt backoff limit h e b m =
      elim (Outcome-cases (f attempt)) [
        | inl (x, failed) ↦
            let more : leb config.max_retries (attempt + 1) ≡ false = ground (arith, e) in
            rw (failed, retry_loop, first_of, more)
              (sleeping-Ends (first_of k (attempt + 1) f) k limit backoff
                (retry_loop fuel f config (attempt + 1) (min (backoff * 2) config.max_backoff)) b
                (retry_loop-Ends k fuel f config (attempt + 1)
                  (min (backoff * 2) config.max_backoff) limit (omega arith) (omega (arith, e))
                  (omega arith) m))
        | inr (x, done) ↦ rw (done, retry_loop, first_of) (refl, omega arith, tt)
      ]

  -- The retries end with the first success of as many attempts as are allowed, but of one at least, or with the
  -- last error; they sleep once less than they try, never longer than the two limits.
  pub retry_with_backoff-Ends :
      (f : ℕ → Outcome E T) (config : RetryConfig)
      → Ends
          (first_of (config.max_retries - 1) 0 f)
          (config.max_retries - 1)
          (max config.initial_backoff config.max_backoff)
          (retry_with_backoff f config)
  unfolding retry_with_backoff
  retry_with_backoff-Ends f config =
      retry_loop-Ends (config.max_retries - 1) (suc config.max_retries) f config 0
        config.initial_backoff (max config.initial_backoff config.max_backoff) (omega arith)
        (omega arith) (omega arith) (omega arith)
