-- ===== src/Prelude/Text.antt =====
-- `String` and `&str` as their UTF-8 bytes: Rust measures and slices them by bytes.
use Prim.Native.Nat.{ℕ, ◌-◌}
use Prim.Native.Char.{code}
use Prim.Native.String.{String}
use mathlib.Core.Path.{◌≡◌, refl}
use mathlib.Core.Bool.{Bool, true, false, ◌&&◌, ◌||◌}
use mathlib.Core.Option.{Option, none, some}
use mathlib.Core.List.{List, [], ◌∷◌, ◌++◌}
use native.Mathlib.Omega.{arith}
use tls_tunnel.Prelude.Tests.{leb, if◌then◌else◌}
use tls_tunnel.Prelude.Lists.{length, drop}
use tls_tunnel.Prelude.Equality.{◌==◌, nat_eq, list_eq}

abbrev pub Str : Type 0
Str = List ℕ

-- A literal of the source; all that the source has here are ASCII.
abbrev pub codes : String → Str
codes String.[] = []
codes (String.◌∷◌ c s) = code c ∷ codes s

-- `s.strip_prefix(p)`
abbrev pub strip_prefix : Str → Str → Option Str
strip_prefix [] s = some s
strip_prefix (p ∷ ps) [] = none
strip_prefix (p ∷ ps) (c ∷ s) = let rest = strip_prefix ps s in if p == c then rest else none

-- `s.ends_with(p)`
abbrev pub ends_with : Str → Str → Bool
ends_with p s = leb (length p) (length s) && (drop (length s - length p) s == p)

pub strip_prefix-append : (p s : Str) → strip_prefix p (p ++ s) ≡ some s
strip_prefix-append [] s = refl
strip_prefix-append (c ∷ p) s = ground (arith, strip_prefix-append p s)

-- `s.trim().is_empty()`: every character is white space, of one, two or three bytes.
is_space : ℕ → Bool
is_space c = (leb 9 c && leb c 13) || c == 32

is_space2 : ℕ → ℕ → Bool
is_space2 a b = a == 0xC2 && (b == 0x85 || b == 0xA0)

is_space3 : ℕ → ℕ → ℕ → Bool
is_space3 a b c =
    (a == 0xE1 && b == 0x9A && c == 0x80)
    || (a == 0xE2
        && b == 0x80
        && ((leb 0x80 c && leb c 0x8A) || c == 0xA8 || c == 0xA9 || c == 0xAF))
    || (a == 0xE2 && b == 0x81 && c == 0x9F)
    || (a == 0xE3 && b == 0x80 && c == 0x80)

unfoldable pub is_blank : Str → Bool
unfolding is_space is_space2 is_space3
is_blank [] = true
is_blank (a ∷ []) = is_space a
is_blank (a ∷ b ∷ []) = (is_space a && is_space b) || is_space2 a b
is_blank (a ∷ b ∷ c ∷ s) =
    let one = is_blank (b ∷ c ∷ s) in
    let two = is_blank (c ∷ s) in
    let three = is_blank s in
    elim (is_space a) [
      | true ↦ one
      | false ↦ elim (is_space2 a b) [
        | true ↦ two
        | false ↦ elim (is_space3 a b c) [ true ↦ three | false ↦ false ]
      ]
    ]

pub is_blank-empty : is_blank [] ≡ true
unfolding is_blank
is_blank-empty = refl
