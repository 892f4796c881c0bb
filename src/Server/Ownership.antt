-- ===== src/Server/Ownership.antt =====
-- What `handle_proxy_config_submission` and `ServerWorld::cleanup` of src/server/mod.rs do to the
-- registry of src/server/registry.rs, key by key.
use tls_tunnel.Prelude.{
  ℕ, ◌≡◌, refl, Bool, false, not, ◌&&◌, ◌||◌, Option, none, some, List, [], ◌∷◌, ◌++◌, arith, ◌==◌,
  nat_eq, list_eq, pair_eq, Bool-cases, inl, inr, if◌then◌else◌, contains, lookup, insert, remove,
  has_key, is_some, lookup-insert, lookup-remove, pair_beq_iff, beq_refl, ◌⊎◌,
}
use tls_tunnel.Config.Types.{ProxyConfig}
use tls_tunnel.Server.World.{ProxyRegistry, ProxyRegistration, Key, info_of, remove_keys}
use tls_tunnel.Server.Submission.{register, proxy_key}

unfoldable pub owned_by : ℕ → Option ProxyRegistration → Bool
owned_by stream_tx none = false
owned_by stream_tx (some r) = r.stream_tx == stream_tx

-- A session's list of keys names exactly the registrations that hold its channel.
abbrev pub OwnsExactly : ℕ → List Key → ProxyRegistry → Type 0
OwnsExactly stream_tx keys registry =
    (key : Key) → contains key keys ≡ owned_by stream_tx (lookup key registry)

-- No registration holds the channel.
abbrev pub OwnsNothing : ℕ → ProxyRegistry → Type 0
OwnsNothing stream_tx registry = (key : Key) → owned_by stream_tx (lookup key registry) ≡ false

-- What the first proxy of a submission with the key registers.
unfoldable pub claim : ℕ → Key → List ProxyConfig → Option ProxyRegistration
unfolding proxy_key info_of
claim stream_tx key [] = none
claim stream_tx key (p ∷ ps) =
    let rest = claim stream_tx key ps in
    if proxy_key p == key
    then some (record { stream_tx = stream_tx; proxy_info = info_of p })
    else rest

abbrev pub or_else {ℓ} : {A : Type ℓ} → Option A → Option A → Option A
or_else none o = o
or_else (some a) o = some a

contains-append :
    (key : Key) (xs ys : List Key) → contains key (xs ++ ys) ≡ (contains key xs || contains key ys)
contains-append key [] ys = refl
contains-append key (x ∷ xs) ys = ground (arith, contains-append key xs ys)

-- A submission leaves a key that is taken as it is and gives a free one to its first proxy with that
-- key, and it notes as its own exactly the keys that it filled.
pub record Fills (stream_tx : ℕ) (ps : List ProxyConfig) (keys : List Key) (r : ProxyRegistry)
    (out : List Key × ProxyRegistry) : Type 0 where
  pub filled : (key : Key) → lookup key out.1 ≡ or_else (lookup key r) (claim stream_tx key ps)
  pub noted :
      (key : Key)
      → contains key out.0
        ≡ (contains key keys || not (has_key key r) && is_some (claim stream_tx key ps))

-- One proxy of the loop, on the key it wants, and on any key.
fill_step :
    (stream_tx : ℕ) (p : ProxyConfig) (ps : List ProxyConfig) (keys : List Key) (r : ProxyRegistry)
    → ((keys' : List Key) (r' : ProxyRegistry)
        → Fills stream_tx ps keys' r' (register stream_tx keys' r' ps))
    → Fills stream_tx (p ∷ ps) keys r (register stream_tx keys r (p ∷ ps))
unfolding register claim
fill_step stream_tx p ps keys r rest =
    let entry : ProxyRegistration = record { stream_tx = stream_tx; proxy_info = info_of p } in
    let skipped = rest keys r in
    let added = rest (keys ++ proxy_key p ∷ []) (insert (proxy_key p) entry r) in
    elim (Bool-cases (has_key (proxy_key p) r)) [
      | inl t ↦ record {
        filled = λ key. ground (arith, t, skipped.filled key, pair_beq_iff (proxy_key p) key);
        noted = λ key. ground (arith, t, skipped.noted key, pair_beq_iff (proxy_key p) key);
      }
      | inr t ↦ record {
        filled = λ key. ground (
          arith,
          t,
          added.filled key,
          pair_beq_iff (proxy_key p) key,
          lookup-insert (proxy_key p) key entry r,
        );
        noted = λ key. ground (
          arith,
          t,
          added.noted key,
          pair_beq_iff (proxy_key p) key,
          lookup-insert (proxy_key p) key entry r,
          contains-append key keys (proxy_key p ∷ []),
        );
      }
    ]

pub register-Fills :
    (stream_tx : ℕ) (ps : List ProxyConfig) (keys : List Key) (r : ProxyRegistry)
    → Fills stream_tx ps keys r (register stream_tx keys r ps)
unfolding register claim
register-Fills stream_tx [] keys r = record {
  filled = λ key. ground arith;
  noted = λ key. ground arith;
}
register-Fills stream_tx (p ∷ ps) keys r =
    fill_step stream_tx p ps keys r (register-Fills stream_tx ps)

claim-owned :
    (stream_tx : ℕ) (key : Key) (ps : List ProxyConfig)
    → owned_by stream_tx (claim stream_tx key ps) ≡ is_some (claim stream_tx key ps)
unfolding claim owned_by
claim-owned stream_tx key [] = refl
claim-owned stream_tx key (p ∷ ps) =
    ground (arith, claim-owned stream_tx key ps, beq_refl stream_tx)

pub register-OwnsExactly :
    (stream_tx : ℕ) (ps : List ProxyConfig) (keys : List Key) (r : ProxyRegistry)
    → OwnsExactly stream_tx keys r
    → (let (keys', r') = register stream_tx keys r ps in OwnsExactly stream_tx keys' r')
unfolding owned_by
register-OwnsExactly stream_tx ps keys r owns key =
    let f = register-Fills stream_tx ps keys r in
    ground (arith, f.filled key, f.noted key, owns key, claim-owned stream_tx key ps)

pub lookup-remove_keys :
    (keys : List Key) (r : ProxyRegistry) (key : Key)
    → lookup key (remove_keys keys r) ≡ (if contains key keys then none else lookup key r)
unfolding remove_keys
lookup-remove_keys [] r key = refl
lookup-remove_keys (k ∷ keys) r key =
    ground (arith, lookup-remove_keys keys (remove k r) key, lookup-remove k key r)

-- What may become of a key in a step of one session: nothing, unless it was free or its own.
abbrev pub IsFreeOr : ℕ → Option ProxyRegistration → Type 0
IsFreeOr stream_tx none = Unit
IsFreeOr stream_tx (some r) = r.stream_tx ≡ stream_tx

abbrev pub IsKept : ℕ → Option ProxyRegistration → Option ProxyRegistration → Type 0
IsKept stream_tx before behind =
    (behind ≡ before) ⊎ (IsFreeOr stream_tx before × IsFreeOr stream_tx behind)

abbrev pub KeepsOthers : ℕ → ProxyRegistry → ProxyRegistry → Type 0
KeepsOthers stream_tx r r' = (key : Key) → IsKept stream_tx (lookup key r) (lookup key r')
