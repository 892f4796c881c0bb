-- ===== src/Visitor/Wire.antt =====
-- Bytes on a stream: `read_exact`, `u16::from_be_bytes` and `to_be_bytes`, `String::from_utf8`. What has
-- arrived of a stream before it ended, or before the time was up, is a list of bytes.
use tls_tunnel.Prelude.{
  ℕ, zero, suc, ◌+◌, ◌*◌, ◌/◌, ◌%◌, ◌<◌, ◌≡◌, ap, Bool, true, false, ◌&&◌, Option, none, some, [],
  ◌∷◌, ◌++◌, length, take, drop, leb, ltb, if◌then◌else◌, Str, arith, ◌==◌, nat_eq, length-append,
  take-length-append, drop-length-append,
}

unfoldable pub read_exact : ℕ → Str → Option (Str × Str)
read_exact n s = if leb n (length s) then some (take n s, drop n s) else none

-- `(n as u16).to_be_bytes()`
abbrev pub u16_bytes : ℕ → Str
u16_bytes n = (n / 256 % 256) ∷ (n % 256) ∷ []

unfoldable pub read_u16 : Str → Option (ℕ × Str)
read_u16 (a ∷ b ∷ s) = some (a * 256 + b, s)
read_u16 _ = none

between : ℕ → ℕ → ℕ → Bool
between low high c = leb low c && leb c high

-- What may come next in UTF-8: a character, or a byte in a range with some continuation bytes behind it.
-- The ranges leave out overlong forms, surrogates and what is above U+10FFFF.
pub data Expect : Type 0 where
  character : Expect
  tail : (low high more : ℕ) → Expect

unfoldable pub next : Expect → ℕ → Option Expect
unfolding between
next character c =
    if ltb c 0x80
    then some character
    else if between 0xC2 0xDF c
    then some (tail 0x80 0xBF 0)
    else if c == 0xE0
    then some (tail 0xA0 0xBF 1)
    else if c == 0xED
    then some (tail 0x80 0x9F 1)
    else if between 0xE1 0xEF c
    then some (tail 0x80 0xBF 1)
    else if c == 0xF0
    then some (tail 0x90 0xBF 2)
    else if c == 0xF4
    then some (tail 0x80 0x8F 2)
    else if between 0xF1 0xF3 c
    then some (tail 0x80 0xBF 2)
    else none
next (tail low high zero) c = if between low high c then some character else none
next (tail low high (suc more)) c = if between low high c then some (tail 0x80 0xBF more) else none

unfoldable pub utf8_from : Expect → Str → Bool
utf8_from character [] = true
utf8_from (tail low high more) [] = false
utf8_from e (c ∷ s) = elim (next e c) [ none ↦ false | some e' ↦ utf8_from e' s ]

-- Whether `String::from_utf8` takes the bytes.
abbrev pub is_utf8 : Str → Bool
is_utf8 s = utf8_from character s

pub u16_value : (n : ℕ) → n < 65536 → n / 256 % 256 * 256 + n % 256 ≡ n
u16_value n h = omega arith

pub read_u16-u16_bytes : (n : ℕ) (s : Str) → n < 65536 → read_u16 (u16_bytes n ++ s) ≡ some (n, s)
unfolding read_u16
read_u16-u16_bytes n s h = ap (λ m. some (m, s)) (omega arith)

pub read_exact-append : (xs ys : Str) → read_exact (length xs) (xs ++ ys) ≡ some (xs, ys)
unfolding read_exact
read_exact-append xs ys =
    ground (arith, length-append xs ys, take-length-append xs ys, drop-length-append xs ys)
