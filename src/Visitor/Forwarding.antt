-- ===== src/Visitor/Forwarding.antt =====
-- What `handle_forward_request` of src/server/visitor.rs lets a client reach.
use tls_tunnel.Prelude.{
  ℕ, ◌<◌, ◌≡◌, ◌≢◌, ◌+◌, ◌*◌, Outcome-cases, refl, sym, subst, ◌∙◌, true, false, not, none, some,
  List, [], ◌∷◌, ◌⊎◌, inl, inr, if_both, if_cases, Option-cases, Str, codes, arith, All, nat_eq,
  list_eq, pair_eq, lookup, strip_prefix, ok, err, Outcome,
}
use tls_tunnel.Server.World.{ProxyRegistration}
use tls_tunnel.Visitor.Address.{
  IpAddr, v4, v6, is_blocked, any_blocked, Resolver, with_default_port, is_local_address,
}
use tls_tunnel.Visitor.Handler.{
  Request, read_request, Environment, Handled, after_connect, handle_forward_request,
  connect_to_owner, handle_request, handle_visitor_stream,
}

-- An address outside the ranges that the check lists: 0, 10, 127, 172.16/12, 192.168 and 169.254 of IPv4, and
-- fc00::/7, fe80::/10 and ::1 of IPv6. It need not be public: the check lists neither :: nor the IPv4 addresses
-- that are mapped into IPv6.
abbrev pub IsUnlisted : IpAddr → Type 0
IsUnlisted (v4 a b c d) =
    (a ≢ 0)
    × (a ≢ 10)
    × (a ≢ 127)
    × ((a ≡ 172) → (b < 16) ⊎ (31 < b))
    × ((a ≡ 192) → b ≢ 168)
    × ((a ≡ 169) → b ≢ 254)
IsUnlisted (v6 s0 s1 s2 s3 s4 s5 s6 s7) =
    ((s0 < 0xFC00) ⊎ (0xFDFF < s0))
    × ((s0 < 0xFE80) ⊎ (0xFEBF < s0))
    × ¬ ((s0 ≡ 0) × (s1 ≡ 0) × (s2 ≡ 0) × (s3 ≡ 0) × (s4 ≡ 0) × (s5 ≡ 0) × (s6 ≡ 0) × (s7 ≡ 1))

blocked-IsUnlisted : (ip : IpAddr) → is_blocked ip ≡ false → IsUnlisted ip
unfolding is_blocked
blocked-IsUnlisted (v4 a b c d) h = ground arith
blocked-IsUnlisted (v6 s0 s1 s2 s3 s4 s5 s6 s7) h = ground arith

any_blocked-IsUnlisted : (ips : List IpAddr) → any_blocked ips ≡ false → All IsUnlisted ips
unfolding any_blocked
any_blocked-IsUnlisted [] h = tt
any_blocked-IsUnlisted (ip ∷ ips) h =
    let step : (is_blocked ip ≡ false) × (any_blocked ips ≡ false) = ground arith in
    (blocked-IsUnlisted ip step.0, any_blocked-IsUnlisted ips step.1)

-- What the check of the target found: every address that its name resolved to is unlisted.
pub record IsCleared (env : Environment) (target : Str) : Type 0 where
  pub enabled : env.config.allow_forward ≡ true
  pub addresses : List IpAddr
  pub resolved : env.resolve (with_default_port target) ≡ some addresses
  pub each : All IsUnlisted addresses

cleared :
    (env : Environment) (target : Str)
    → env.config.allow_forward ≡ true
    → is_local_address env.resolve target ≡ false
    → IsCleared env target
unfolding is_local_address
cleared env target enabled h = elim (Option-cases (env.resolve (with_default_port target))) [
  | inl unknown ↦ absurd (ground (arith, h, unknown))
  | inr (ips, resolved) ↦ record {
    enabled = enabled;
    addresses = ips;
    resolved = resolved;
    each = any_blocked-IsUnlisted ips (rw (resolved, is_local_address) at h);
  }
]

-- What is dialled was cleared.
abbrev pub DialsCleared : Environment → Handled → Type 0
DialsCleared env o = (target : Str) → o.dialled ≡ some target → IsCleared env target

-- A handler that dials at most one target, which was cleared.
abbrev DialsOnly : Environment → Str → Handled → Type 0
DialsOnly env target o = (o.dialled ≡ none) ⊎ ((o.dialled ≡ some target) × IsCleared env target)

some_injective : (s t : Str) → some s ≡ some t → s ≡ t
some_injective s t e = cc

only-DialsCleared :
    (env : Environment) (target : Str) (o : Handled) → DialsOnly env target o → DialsCleared env o
only-DialsCleared env target o (inl none_dialled) t e = absurd (cc (none_dialled, e))
only-DialsCleared env target o (inr (dialled, clear)) t e =
    subst (IsCleared env) (some_injective target t (sym dialled ∙ e)) clear

connected-DialsOnly :
    (env : Environment) (target : Str) (r : Outcome Str (Unit {0}))
    → IsCleared env target
    → DialsOnly env target (after_connect env target r)
unfolding after_connect
connected-DialsOnly env target (err reason) c = inr (refl, c)
connected-DialsOnly env target (ok done) c =
    if_both (DialsOnly env target) env.confirms (inr (refl, c)) (inr (refl, c))

handle_forward_request-DialsOnly :
    (env : Environment) (target : Str) → DialsOnly env target (handle_forward_request env target)
unfolding handle_forward_request
handle_forward_request-DialsOnly env target =
    let P = DialsOnly env target in
    if_cases P (not env.config.allow_forward) (λ off. inl refl)
      (λ on.
        if_cases P (is_local_address env.resolve target) (λ local. inl refl)
          (λ passed.
            connected-DialsOnly env target (env.connect target)
              (cleared env target (ground (arith, on)) passed)))

connect_to_owner_dials :
    (env : Environment) (request : Request) (reg : ProxyRegistration)
    → (connect_to_owner env request reg).dialled ≡ none
unfolding connect_to_owner
connect_to_owner_dials env request reg = ground arith

handle_request-DialsCleared :
    (env : Environment) (request : Request) → DialsCleared env (handle_request env request)
unfolding handle_request
handle_request-DialsCleared env request =
    elim (Option-cases (strip_prefix (codes "@forward:") request.name)) [
      | inr (target, forward) ↦
          rw (forward, handle_request)
            (only-DialsCleared env target (handle_forward_request env target)
              (handle_forward_request-DialsOnly env target))
      | inl plain ↦ elim (Option-cases (lookup (request.name, request.publish_port) env.registry)) [
        | inl missing ↦ rw (plain, missing, handle_request) (λ t e. absurd cc)
        | inr (reg, found) ↦
            rw (plain, found, handle_request)
              (λ t e. absurd (cc (connect_to_owner_dials env request reg, e)))
      ]
    ]

-- Whatever bytes a visitor's stream brings, the server dials a target only if forwarding is enabled and the
-- name of the target resolved, for the check, to addresses that are all outside the ranges that the check lists:
-- no loopback, private, link-local or 0.x address of IPv4, and no loopback, unique-local or link-local one of
-- IPv6. An IPv4 address mapped into IPv6, and ::, count as outside.
pub handle_visitor_stream-DialsCleared :
    (env : Environment) (input : Str) → DialsCleared env (handle_visitor_stream env input)
unfolding handle_visitor_stream
handle_visitor_stream-DialsCleared env input = elim (Outcome-cases (read_request input)) [
  | inl (f, failed) ↦ rw (failed, handle_visitor_stream) (λ t e. absurd cc)
  | inr (request, done) ↦ rw (done, handle_visitor_stream) (handle_request-DialsCleared env request)
]

-- An IPv4 address that is mapped into IPv6 passes the check whatever it is: with ::ffff:0:0/96 in front
-- even the loopback addresses and the private networks do.
pub mapped-is_local_address :
    (resolve : Resolver) (target : Str) (a b c d : ℕ)
    → resolve (with_default_port target)
      ≡ some (v6 0 0 0 0 0 0xFFFF (a * 256 + b) (c * 256 + d) ∷ [])
    → is_local_address resolve target ≡ false
unfolding is_local_address
mapped-is_local_address resolve target a b c d h = rw (h, is_local_address) refl
