-- ===== src/Prelude/Decimal.antt =====
-- Numbers printed in decimal, as `format!` does, and `name:port` texts.
use Prim.Native.Nat.{ℕ, zero, suc, ◌+◌, ◌-◌, ◌*◌, ◌/◌, ◌%◌, ◌<◌, ◌≤◌}
use mathlib.Core.Path.{◌≡◌, refl, ap, ◌∙◌, sym}
use mathlib.Core.List.{[], ◌∷◌, ◌++◌}
use native.Mathlib.Omega.{arith}
use tls_tunnel.Prelude.Tests.{ltb, if◌then◌else◌, Bool-cases, ltb→lt, ltb→le}
use mathlib.Core.Logic.{inl, inr, ◌≢◌}
use mathlib.Core.Option.{Option, none, some}
use tls_tunnel.Prelude.Lists.{All, length}
use tls_tunnel.Prelude.Equality.{◌==◌, nat_eq}
use tls_tunnel.Prelude.Text.{Str}

-- Fuel: a number has fewer digits than its successor counts.
digits : ℕ → ℕ → Str → Str
digits zero n rest = rest
digits (suc f) n rest =
    let more = digits f (n / 10) ((48 + n % 10) ∷ rest) in
    if ltb n 10 then (48 + n) ∷ rest else more

unfoldable pub decimal : ℕ → Str
unfolding digits
decimal n = digits (suc n) n []

value : ℕ → Str → ℕ
value acc [] = acc
value acc (c ∷ s) = value (acc * 10 + (c - 48)) s

value-digits : (f n : ℕ) (rest : Str) → n < f → value 0 (digits f n rest) ≡ value n rest
unfolding digits value
value-digits zero n rest h = absurd (omega arith)
value-digits (suc f) n rest h = elim (Bool-cases (ltb n 10)) [
  | inl small ↦ rw small (ap (λ k. value k rest) (omega arith))
  | inr big ↦
      let le = ltb→le n 10 big in
      rw big (
        value-digits f (n / 10) ((48 + n % 10) ∷ rest) (omega arith)
        ∙ ap (λ k. value k rest) (omega arith))
]

value-decimal : (n : ℕ) → value 0 (decimal n) ≡ n
unfolding decimal value
value-decimal n = value-digits (suc n) n [] (omega arith)

digits-append : (f n : ℕ) (rest more : Str) → digits f n rest ++ more ≡ digits f n (rest ++ more)
unfolding digits
digits-append zero n rest more = refl
digits-append (suc f) n rest more = elim (Bool-cases (ltb n 10)) [
  | inl small ↦ rw small refl
  | inr big ↦ rw big (digits-append f (n / 10) ((48 + n % 10) ∷ rest) more)
]

-- A function that reads digits one by one reads the number of its decimal text.
module _ {A : Type 0} (g : ℕ → Str → A)
    (step : (acc c : ℕ) (s : Str)
      → 48 ≤ c
      → c < 58
      → g acc (c ∷ s) ≡ g (acc * 10 + (c - 48)) s) where
  reads-digits : (f n : ℕ) (rest : Str) → n < f → g 0 (digits f n rest) ≡ g n rest
  unfolding digits
  reads-digits zero n rest h = absurd (omega arith)
  reads-digits (suc f) n rest h = elim (Bool-cases (ltb n 10)) [
    | inl small ↦
        let one : 0 * 10 + (48 + n - 48) ≡ n = omega arith in
        rw small (
          step 0 (48 + n) rest (omega arith) (omega (arith, ltb→lt n 10 small))
          ∙ ap (λ k. g k rest) one)
    | inr big ↦
        let le = ltb→le n 10 big in
        let last : n / 10 * 10 + (48 + n % 10 - 48) ≡ n = omega arith in
        rw big (
          reads-digits f (n / 10) ((48 + n % 10) ∷ rest) (omega arith)
          ∙ step (n / 10) (48 + n % 10) rest (omega arith) (omega arith)
          ∙ ap (λ k. g k rest) last)
  ]

  pub reads-decimal : (n : ℕ) (rest : Str) → g 0 (decimal n ++ rest) ≡ g n rest
  unfolding decimal
  reads-decimal n rest =
      ap (g 0) (digits-append (suc n) n [] rest) ∙ reads-digits (suc n) n rest (omega arith)

-- Different numbers are printed differently.
pub decimal_injective : (m n : ℕ) → decimal m ≡ decimal n → m ≡ n
decimal_injective m n e = sym (value-decimal m) ∙ ap (value 0) e ∙ value-decimal n

abbrev pub NoColon : Str → Type 0
NoColon = All (λ c. c ≢ 58)

digits-NoColon : (f n : ℕ) (rest : Str) → NoColon rest → NoColon (digits f n rest)
unfolding digits
digits-NoColon zero n rest h = h
digits-NoColon (suc f) n rest h = elim (Bool-cases (ltb n 10)) [
  | inl small ↦ rw small ((λ e. absurd (omega (arith, ltb→lt n 10 small))), h)
  | inr big ↦ rw big (digits-NoColon f (n / 10) _ ((λ e. absurd (omega arith)), h))
]

pub decimal-NoColon : (n : ℕ) → NoColon (decimal n)
unfolding decimal
decimal-NoColon n = digits-NoColon (suc n) n [] tt

-- `s.rfind(':')`: what stands before the last colon and behind it.
abbrev pub Ascii : Str → Type 0
Ascii = All (λ c. c < 128)

digits-Ascii : (f n : ℕ) (rest : Str) → Ascii rest → Ascii (digits f n rest)
unfolding digits
digits-Ascii zero n rest h = h
digits-Ascii (suc f) n rest h = elim (Bool-cases (ltb n 10)) [
  | inl small ↦ rw small (omega (arith, ltb→lt n 10 small), h)
  | inr big ↦ rw big (digits-Ascii f (n / 10) _ (omega arith, h))
]

pub decimal-Ascii : (n : ℕ) → Ascii (decimal n)
unfolding decimal
decimal-Ascii n = digits-Ascii (suc n) n [] tt

-- 10 to the power `k + 1`
abbrev pub tens : ℕ → ℕ
tens zero = 10
tens (suc k) = 10 * tens k

length-digits :
    (k f n : ℕ) (rest : Str) → n < tens k → length (digits f n rest) ≤ k + 1 + length rest
unfolding digits
length-digits k zero n rest h = omega arith
length-digits zero (suc f) n rest h = ground (arith, h)
length-digits (suc k) (suc f) n rest h =
    ground (arith, h, length-digits k f (n / 10) ((48 + n % 10) ∷ rest) (omega arith))

pub length-decimal : (k n : ℕ) → n < tens k → length (decimal n) ≤ k + 1
unfolding decimal
length-decimal k n h = omega (arith, length-digits k (suc n) n [] h)

unfoldable pub rsplit_colon : Str → Option (Str × Str)
rsplit_colon [] = none
rsplit_colon (c ∷ s) = elim (rsplit_colon s) [
  | some (before, behind) ↦ some (c ∷ before, behind)
  | none ↦ if c == 58 then some ([], s) else none
]

pub rsplit_colon-NoColon : (s : Str) → NoColon s → rsplit_colon s ≡ none
unfolding rsplit_colon
rsplit_colon-NoColon [] h = refl
rsplit_colon-NoColon (c ∷ s) h = ground (arith, rsplit_colon-NoColon s h.1, h.0)

pub rsplit_colon-append : (h s : Str) → NoColon s → rsplit_colon (h ++ 58 ∷ s) ≡ some (h, s)
unfolding rsplit_colon
rsplit_colon-append [] s k = ground (arith, rsplit_colon-NoColon s k)
rsplit_colon-append (c ∷ h) s k = ground (arith, rsplit_colon-append h s k)

-- `format!("{}:{}", name, port)`
unfoldable pub with_port : Str → ℕ → Str
with_port name port = name ++ 58 ∷ decimal port

pub rsplit_colon-with_port :
    (name : Str) (port : ℕ) → rsplit_colon (with_port name port) ≡ some (name, decimal port)
unfolding with_port
rsplit_colon-with_port name port = rsplit_colon-append name (decimal port) (decimal-NoColon port)

-- A name, colons and all, and a port are told from their text.
pub with_port_injective : (m n : Str) (p q : ℕ) → with_port m p ≡ with_port n q → (m ≡ n) × (p ≡ q)
with_port_injective m n p q e =
    let same : ◌≡◌ {A = Option (Str × Str)} (some (m, decimal p)) (some (n, decimal q)) =
      sym (rsplit_colon-with_port m p) ∙ ap rsplit_colon e ∙ rsplit_colon-with_port n q in
    (cc, decimal_injective p q (cc))
