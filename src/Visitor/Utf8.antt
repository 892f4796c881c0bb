-- ===== src/Visitor/Utf8.antt =====
-- Texts that are put together are texts: `String::from_utf8` takes the error messages of
-- src/server/visitor.rs back.
use tls_tunnel.Prelude.{
  ◌<◌, ◌≡◌, refl, true, [], ◌∷◌, ◌++◌, Str, All, arith, Option-cases, inl, inr,
}
use tls_tunnel.Visitor.Wire.{Expect, character, tail, next, utf8_from, is_utf8}

utf8_from-append :
    (e : Expect) (s t : Str) → utf8_from e s ≡ true → is_utf8 t ≡ true → utf8_from e (s ++ t) ≡ true
unfolding utf8_from
utf8_from-append character [] t h k = k
utf8_from-append (tail low high more) [] t h k = cc
utf8_from-append e (c ∷ s) t h k = elim (Option-cases (next e c)) [
  | inl stuck ↦ absurd (ground (arith, h, stuck))
  | inr (e', goes) ↦ rw (goes, utf8_from) (utf8_from-append e' s t (rw (goes, utf8_from) at h) k)
]

pub is_utf8-append : (s t : Str) → is_utf8 s ≡ true → is_utf8 t ≡ true → is_utf8 (s ++ t) ≡ true
is_utf8-append s t h k = utf8_from-append character s t h k

pub ascii-is_utf8 : (s : Str) → All (λ c. c < 128) s → is_utf8 s ≡ true
unfolding utf8_from next
ascii-is_utf8 [] h = refl
ascii-is_utf8 (c ∷ s) h = ground (arith, h.0, ascii-is_utf8 s h.1)
