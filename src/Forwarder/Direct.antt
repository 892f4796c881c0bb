-- ===== src/Forwarder/Direct.antt =====
-- `is_unsafe_direct_target` of src/client/forwarder.rs, on the addresses of src/server/visitor.rs: the two
-- files test them alike. A slice that Rust refuses to take is a panic, here `none`.
use tls_tunnel.Prelude.{
  ℕ, zero, suc, Bool, true, false, ◌||◌, Option, none, some, [], ◌∷◌, Str, codes, ltb, leb, take,
  drop, if◌then◌else◌, ◌==◌, nat_eq, list_eq, rsplit_colon,
}
use tls_tunnel.Visitor.Address.{any_blocked, Resolver, with_default_port}

-- `target.matches(':').count()`
abbrev pub count_colons : Str → ℕ
count_colons [] = 0
count_colons (c ∷ s) = if c == 58 then suc (count_colons s) else count_colons s

-- `target.find(']')`
abbrev pub find_bracket : Str → Option ℕ
find_bracket [] = none
find_bracket (c ∷ s) =
    let later : Option ℕ = elim (find_bracket s) [ none ↦ none | some n ↦ some (suc n) ] in
    if c == 93 then some 0 else later

-- A byte that a character may start with.
abbrev pub is_boundary : Str → Bool
is_boundary [] = true
is_boundary (c ∷ s) = ltb c 128 || leb 192 c

-- `&target[1..bracket_end]`
unfoldable pub between_brackets : ℕ → Str → Option Str
between_brackets zero target = none
between_brackets (suc n) target =
    if is_boundary (drop 1 target) then some (take n (drop 1 target)) else none

unfoldable pub direct_host : Str → Option Str
unfolding between_brackets
direct_host target = elim (rsplit_colon target) [
  | none ↦ some target
  | some parts ↦
      if ltb 1 (count_colons target)
      then elim (find_bracket target) [ some n ↦ between_brackets n target | none ↦ some target ]
      else some parts.0
]

unfoldable pub is_local_name : Str → Bool
is_local_name host = host == codes "localhost" || host == codes "127.0.0.1" || host == codes "::1"

unfoldable pub resolves_to_blocked : Resolver → Str → Bool
resolves_to_blocked resolve target = elim (resolve (with_default_port target)) [
  | some ips ↦ any_blocked ips
  | none ↦ false
]

-- `none` where the slice panics.
unfoldable pub is_unsafe_direct_target : Resolver → Str → Option Bool
unfolding direct_host is_local_name resolves_to_blocked
is_unsafe_direct_target resolve target = elim (direct_host target) [
  | none ↦ none
  | some host ↦ some (is_local_name host || resolves_to_blocked resolve target)
]
