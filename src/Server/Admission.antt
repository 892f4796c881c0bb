-- ===== src/Server/Admission.antt =====
-- Which submissions pass the validation loop of `handle_proxy_config_submission`, src/server/mod.rs.
use tls_tunnel.Prelude.{
  ℕ, ◌≡◌, ◌≢◌, ◌↔◌, refl, false, none, List, [], ◌∷◌, map, All, NewTo, NewTo-iff, Distinct, Str,
  arith, nat_eq, list_eq, pair_eq, contains,
}
use tls_tunnel.Config.Types.{ProxyConfig}
use tls_tunnel.Config.Validity.{ProxyIsValid, publish_binding}
use tls_tunnel.Server.World.{Key}
use tls_tunnel.Server.Submission.{refuse_fields, refuse_from}

-- A proxy that the server can publish beside its own port.
pub record IsPublishable (bind_port : ℕ) (p : ProxyConfig) : Type 0 where
  pub valid : ProxyIsValid p
  pub free : p.publish_port ≢ bind_port

pub record AreAdmissible (bind_port : ℕ) (ps : List ProxyConfig) : Type 0 where
  pub each : All (IsPublishable bind_port) ps
  pub names : Distinct (map (λ p. p.name) ps)
  pub bindings : Distinct (map publish_binding ps)

-- What the loop has checked, given what its sets hold.
pub record AdmittedFrom (bind_port : ℕ) (ns : List Str) (bs : List Key) (ps : List ProxyConfig)
    : Type 0 where
  pub each : All (IsPublishable bind_port) ps
  pub names : NewTo ns (map (λ p. p.name) ps)
  pub binds : NewTo bs (map publish_binding ps)

refuse_fields_sound :
    (bind_port : ℕ) (p : ProxyConfig) → refuse_fields bind_port p ≡ none → IsPublishable bind_port p
unfolding refuse_fields
refuse_fields_sound bind_port p h = ground arith

refuse_fields_complete :
    (bind_port : ℕ) (p : ProxyConfig) → IsPublishable bind_port p → refuse_fields bind_port p ≡ none
unfolding refuse_fields
refuse_fields_complete bind_port p h = ground arith

refuse_from_sound :
    (bind_port : ℕ) (names : List Str) (binds : List Key) (ps : List ProxyConfig)
    → refuse_from bind_port names binds ps ≡ none
    → AdmittedFrom bind_port names binds ps
unfolding refuse_from
refuse_from_sound bind_port names binds [] h = record { each = tt; names = tt; binds = tt }
refuse_from_sound bind_port names binds (p ∷ ps) h =
    let step : (contains p.name names ≡ false)
        × (contains (publish_binding p) binds ≡ false)
        × (refuse_fields bind_port p ≡ none)
        × (refuse_from bind_port (p.name ∷ names) (publish_binding p ∷ binds) ps ≡ none) =
      ground arith in
    let rest = refuse_from_sound bind_port (p.name ∷ names) (publish_binding p ∷ binds) ps step.3 in
    record {
      each = (refuse_fields_sound bind_port p step.2, rest.each);
      names = (step.0, rest.names);
      binds = (step.1, rest.binds);
    }

refuse_from_complete :
    (bind_port : ℕ) (names : List Str) (binds : List Key) (ps : List ProxyConfig)
    → AdmittedFrom bind_port names binds ps
    → refuse_from bind_port names binds ps ≡ none
unfolding refuse_from
refuse_from_complete bind_port names binds [] h = refl
refuse_from_complete bind_port names binds (p ∷ ps) h = ground (
  arith,
  refuse_fields_complete bind_port p h.each.0,
  refuse_from_complete bind_port (p.name ∷ names) (publish_binding p ∷ binds) ps
      (record { each = h.each.1; names = h.names.1; binds = h.binds.1 }),
)

-- The loop refuses nothing exactly if every proxy is valid and keeps off the server's own port, and no
-- name and no publish address with port stands twice.
pub refuse_from_iff :
    (bind_port : ℕ) (ps : List ProxyConfig)
    → (refuse_from bind_port [] [] ps ≡ none) ↔ AreAdmissible bind_port ps
refuse_from_iff bind_port ps = (to, from)
  where
    to : refuse_from bind_port [] [] ps ≡ none → AreAdmissible bind_port ps
    to h =
        let l = refuse_from_sound bind_port [] [] ps h in
        record {
          each = l.each;
          names = (NewTo-iff _).0 l.names;
          bindings = (NewTo-iff _).0 l.binds;
        }

    from : AreAdmissible bind_port ps → refuse_from bind_port [] [] ps ≡ none
    from v = refuse_from_complete bind_port [] [] ps (record {
      each = v.each;
      names = (NewTo-iff _).1 v.names;
      binds = (NewTo-iff _).1 v.bindings;
    })
