-- ===== src/Config/Soundness.antt =====
-- The validation of src/config/validator.rs accepts exactly the valid configurations.
use tls_tunnel.Prelude.{
  ◌≤◌, ◌≡◌, ◌≢◌, ◌↔◌, ◌⊎◌, inl, inr, refl, true, Option, none, some, List, [], ◌∷◌, length,
  NewTo-iff, arith, nat_eq, list_eq, pair_eq, ok, not, ◌&&◌,
}
use tls_tunnel.Config.Types.{
  ProxyConfig, VisitorConfig, ForwarderConfig, ServerConfig, ClientFullConfig,
}
use tls_tunnel.Config.Validator.{
  validate_address, validate_rate_limit_config, validate_size_limit_config, if_set, is_empty, Check,
  validate_auth_key, validate_proxies, validate_visitors, validate_forwarders,
  validate_client_full_config, validate_server_config,
}
use tls_tunnel.Config.Validity.{
  IfSet, RateLimitIsValid, SizeLimitIsValid, ProxiesAreValid, VisitorsAreValid, ForwardersAreValid,
  ClientIsValid, ServerIsValid,
}
use tls_tunnel.Config.Loops.{
  ProxiesFrom-sound, ProxiesFrom-complete, VisitorsFrom-sound, VisitorsFrom-complete,
  ForwardersFrom-sound, ForwardersFrom-complete,
}

-- The proxy list is accepted exactly if every entry is valid and no name, no publish address with
-- port, and no local port stands twice.
pub validate_proxies_iff :
    (ps : List ProxyConfig) → (validate_proxies ps ≡ ok tt) ↔ ProxiesAreValid ps
unfolding validate_proxies
validate_proxies_iff ps = (to, from)
  where
    to : validate_proxies ps ≡ ok tt → ProxiesAreValid ps
    to h =
        let l = ProxiesFrom-sound [] [] [] ps h in
        record {
          each = l.each;
          names = (NewTo-iff _).0 l.names;
          bindings = (NewTo-iff _).0 l.binds;
          local_ports = (NewTo-iff _).0 l.ports;
        }

    from : ProxiesAreValid ps → validate_proxies ps ≡ ok tt
    from v = ProxiesFrom-complete [] [] [] ps (record {
      each = v.each;
      names = (NewTo-iff _).1 v.names;
      binds = (NewTo-iff _).1 v.bindings;
      ports = (NewTo-iff _).1 v.local_ports;
    })

-- The visitor list is accepted exactly if every entry is valid and no name and no bind address with port
-- stands twice.
pub validate_visitors_iff :
    (vs : List VisitorConfig) → (validate_visitors vs ≡ ok tt) ↔ VisitorsAreValid vs
unfolding validate_visitors
validate_visitors_iff vs = (to, from)
  where
    to : validate_visitors vs ≡ ok tt → VisitorsAreValid vs
    to h =
        let l = VisitorsFrom-sound [] [] vs h in
        record {
          each = l.each;
          names = (NewTo-iff _).0 l.names;
          bindings = (NewTo-iff _).0 l.binds;
        }

    from : VisitorsAreValid vs → validate_visitors vs ≡ ok tt
    from v = VisitorsFrom-complete [] [] vs (record {
      each = v.each;
      names = (NewTo-iff _).1 v.names;
      binds = (NewTo-iff _).1 v.bindings;
    })

-- The forwarder list is accepted exactly if every entry is valid and no name and no bind address with port
-- stands twice.
pub validate_forwarders_iff :
    (vs : List ForwarderConfig) → (validate_forwarders vs ≡ ok tt) ↔ ForwardersAreValid vs
unfolding validate_forwarders
validate_forwarders_iff vs = (to, from)
  where
    to : validate_forwarders vs ≡ ok tt → ForwardersAreValid vs
    to h =
        let l = ForwardersFrom-sound [] [] vs h in
        record {
          each = l.each;
          names = (NewTo-iff _).0 l.names;
          bindings = (NewTo-iff _).0 l.binds;
        }

    from : ForwardersAreValid vs → validate_forwarders vs ≡ ok tt
    from v = ForwardersFrom-complete [] [] vs (record {
      each = v.each;
      names = (NewTo-iff _).1 v.names;
      binds = (NewTo-iff _).1 v.bindings;
    })

some_defined {ℓ κ μ} :
    {A : Type ℓ} {B : Type κ} {C : Type μ} (a : List A) (b : List B) (c : List C)
    → not (is_empty a && is_empty b && is_empty c) ≡ true
    → (a ≢ []) ⊎ (b ≢ []) ⊎ (c ≢ [])
some_defined [] [] [] h = cc
some_defined [] [] (z ∷ c) h = inr (inr (λ e. cc))
some_defined [] (y ∷ b) c h = inr (inl (λ e. cc))
some_defined (x ∷ a) b c h = inl (λ e. cc)

-- A client configuration is accepted exactly if it is valid.
pub validate_client_full_config_iff :
    (c : ClientFullConfig) → (validate_client_full_config c ≡ ok tt) ↔ ClientIsValid c
unfolding validate_client_full_config validate_auth_key
validate_client_full_config_iff c = (to, from)
  where
    to : validate_client_full_config c ≡ ok tt → ClientIsValid c
    to h =
        let parts : (16 ≤ length c.client.auth_key)
            × (not (is_empty c.proxies && is_empty c.visitors && is_empty c.forwarders) ≡ true)
            × (validate_proxies c.proxies ≡ ok tt)
            × (validate_visitors c.visitors ≡ ok tt)
            × (validate_forwarders c.forwarders ≡ ok tt) =
          ground arith in
        record {
          key = parts.0;
          nonempty = some_defined _ _ _ parts.1;
          proxies = (validate_proxies_iff _).0 parts.2;
          visitors = (validate_visitors_iff _).0 parts.3;
          forwarders = (validate_forwarders_iff _).0 parts.4;
        }

    from : ClientIsValid c → validate_client_full_config c ≡ ok tt
    from v = ground (
      arith,
      (validate_proxies_iff c.proxies).1 v.proxies,
      (validate_visitors_iff c.visitors).1 v.visitors,
      (validate_forwarders_iff c.forwarders).1 v.forwarders,
    )

IfSet-sound {ℓ} :
    {A : Type ℓ} (P : A → Type 0) (f : A → Check)
    → ((a : A) → f a ≡ ok tt → P a)
    → (o : Option A) → if_set o f ≡ ok tt
    → IfSet P o
IfSet-sound P f to none h = tt
IfSet-sound P f to (some a) h = to a h

IfSet-complete {ℓ} :
    {A : Type ℓ} (P : A → Type 0) (f : A → Check)
    → ((a : A) → P a → f a ≡ ok tt)
    → (o : Option A) → IfSet P o
    → if_set o f ≡ ok tt
IfSet-complete P f from none h = refl
IfSet-complete P f from (some a) h = from a h

-- A server configuration is accepted exactly if it is valid.
pub validate_server_config_iff :
    (c : ServerConfig) → (validate_server_config c ≡ ok tt) ↔ ServerIsValid c
unfolding validate_server_config
validate_server_config_iff c = (to, from)
  where
    to : validate_server_config c ≡ ok tt → ServerIsValid c
    to h = record {
      addressed = ground arith;
      key = ground arith;
      stats =
          IfSet-sound _ (λ a. validate_address a []) (λ a e. ground arith) c.stats_addr
            (ground arith);
      certificate = (λ e. ground arith, λ e. ground arith);
      behind_proxy = λ e. (λ t. ground arith, ground arith, ground arith);
      rate =
          IfSet-sound RateLimitIsValid validate_rate_limit_config
            (λ a e. (λ t. ground arith, λ t. ground arith)) c.rate_limit (ground arith);
      sizes =
          IfSet-sound SizeLimitIsValid validate_size_limit_config
            (λ a e. (λ t. ground arith, λ t. ground arith, ground arith)) c.size_limits
            (ground arith);
    }

    from : ServerIsValid c → validate_server_config c ≡ ok tt
    from v =
        let stats =
          IfSet-complete _ (λ a. validate_address a []) (λ a e. ground arith) c.stats_addr
            v.stats in
        let rate =
          IfSet-complete RateLimitIsValid validate_rate_limit_config (λ a e. ground arith)
            c.rate_limit v.rate in
        let sizes =
          IfSet-complete SizeLimitIsValid validate_size_limit_config (λ a e. ground arith)
            c.size_limits v.sizes in
        ground (arith, v.behind_proxy)
