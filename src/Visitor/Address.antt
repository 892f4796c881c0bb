-- ===== src/Visitor/Address.antt =====
-- `is_local_address` of src/server/visitor.rs. `ToSocketAddrs`, the name service of the system, is a
-- parameter; an address is that of `std::net`.
use tls_tunnel.Prelude.{
  ℕ, Bool, true, false, ◌&&◌, ◌||◌, Option, none, some, List, [], ◌∷◌, ◌++◌, leb, if◌then◌else◌,
  Str, codes, ◌==◌, nat_eq, contains,
}

pub data IpAddr : Type 0 where
  v4 : (a b c d : ℕ) → IpAddr
  v6 : (s0 s1 s2 s3 s4 s5 s6 s7 : ℕ) → IpAddr

-- `IpAddr::is_loopback`
unfoldable pub is_loopback : IpAddr → Bool
is_loopback (v4 a b c d) = a == 127
is_loopback (v6 s0 s1 s2 s3 s4 s5 s6 s7) =
    s0 == 0 && s1 == 0 && s2 == 0 && s3 == 0 && s4 == 0 && s5 == 0 && s6 == 0 && s7 == 1

-- `Ipv6Addr::is_unique_local`: fc00::/7, by the first segment.
unfoldable pub is_unique_local : ℕ → Bool
is_unique_local s0 = leb 0xFC00 s0 && leb s0 0xFDFF

-- `Ipv6Addr::is_unicast_link_local`: fe80::/10, by the first segment.
unfoldable pub is_unicast_link_local : ℕ → Bool
is_unicast_link_local s0 = leb 0xFE80 s0 && leb s0 0xFEBF

-- What the loop tests of one address.
unfoldable pub is_blocked : IpAddr → Bool
unfolding is_loopback is_unique_local is_unicast_link_local
is_blocked (v4 a b c d) =
    is_loopback (v4 a b c d)
    || a == 10
    || (a == 172 && leb 16 b && leb b 31)
    || (a == 192 && b == 168)
    || (a == 169 && b == 254)
    || a == 0
is_blocked (v6 s0 s1 s2 s3 s4 s5 s6 s7) =
    is_loopback (v6 s0 s1 s2 s3 s4 s5 s6 s7) || is_unique_local s0 || is_unicast_link_local s0

unfoldable pub any_blocked : List IpAddr → Bool
unfolding is_blocked
any_blocked [] = false
any_blocked (ip ∷ ips) = let rest = any_blocked ips in if is_blocked ip then true else rest

abbrev pub Resolver : Type 0
Resolver = Str → Option (List IpAddr)

-- The port that makes the address one that can be resolved.
unfoldable pub with_default_port : Str → Str
with_default_port target = if contains 58 target then target else target ++ codes ":80"

unfoldable pub is_local_address : Resolver → Str → Bool
unfolding any_blocked with_default_port
is_local_address resolve target = elim (resolve (with_default_port target)) [
  | some ips ↦ any_blocked ips
  | none ↦ true
]
