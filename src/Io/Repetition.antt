-- ===== src/Io/Repetition.antt =====
-- When `write_vectored_all` of src/io_util.rs writes some bytes twice.
use tls_tunnel.Prelude.{
  ℕ, ◌+◌, ◌≤◌, ◌<◌, ◌≡◌, refl, ap, sym, subst, ◌∙◌, true, List, [], ◌∷◌, ◌++◌, length, take, ltb,
  leb, if_cases, Str, arith, ◌==◌, nat_eq, length-append, take-length-append, append_nil,
}
use tls_tunnel.Io.Vectored.{
  Attempt, wrote, done, Written, concat, advance_slices, write_loop, Writer, write_vectored_all,
}

take_all : (s : Str) → take (length s) s ≡ s
take_all s = ap (take (length s)) (sym (append_nil s)) ∙ take-length-append s []

advance_inside :
    (a : Str) (slices : List Str) (n : ℕ)
    → n < length a
    → advance_slices (a ∷ slices) n ≡ a ∷ slices
unfolding advance_slices
advance_inside a slices n h =
    if_cases (λ l. l ≡ a ∷ slices) (ltb n (length a)) (λ inside. refl)
      (λ behind. absurd (ground (arith, h, behind)))

module _ (a : Str) (slices : List Str) (n : ℕ) (h : 0 < n) (k : n < length a)
    (attempts : List Attempt) where
  abbrev all : Str
  all = concat (a ∷ slices)

  abbrev Repeats : Written → Type 0
  Repeats r = (r.ending ≡ done) × (r.bytes ≡ take n all ++ all)

  fits : length a ≤ length all
  unfolding concat
  fits = omega (arith, length-append a (concat slices))

  second_write : Repeats (
      write_loop
        (0 + n)
        (length all)
        (a ∷ slices)
        (take n all)
        true
        (wrote (length all) ∷ attempts))
  unfolding write_loop
  second_write =
      if_cases Repeats (length all == 0) (λ zero. absurd (ground (arith, zero, fits)))
        (λ some.
          if_cases Repeats (leb (length all) (0 + n + length all))
            (λ last. (refl, ap (λ s. take n all ++ s) (take_all all)))
            (λ more. absurd (ground (arith, more))))

  first_write :
      Repeats
        (write_loop 0 (length all) (a ∷ slices) [] true (wrote n ∷ wrote (length all) ∷ attempts))
  unfolding write_loop
  first_write =
      if_cases Repeats (n == 0) (λ zero. absurd (ground (arith, zero)))
        (λ some.
          if_cases Repeats (leb (length all) (0 + n)) (λ last. absurd (ground (arith, last, fits)))
            (λ more.
              subst
                (λ l. Repeats (
                  write_loop (0 + n) (length all) l (take n all) true
                    (wrote (length all) ∷ attempts)))
                (sym (advance_inside a slices n k)) second_write))

-- A write that ends inside the first slice is repeated: the next call starts with that slice again, so
-- that a writer which then takes everything gets the first `n` bytes twice, and the call ends well.
pub write_vectored_all_repeats :
    (w : Writer) (a b : Str) (bufs : List Str) (n : ℕ) (attempts : List Attempt)
    → 0 < n
    → n < length a
    → w.flushes ≡ true
    → w.attempts ≡ wrote n ∷ wrote (length (concat (a ∷ b ∷ bufs))) ∷ attempts
    → (let r = write_vectored_all w (a ∷ b ∷ bufs) in
        (r.ending ≡ done) × (r.bytes ≡ take n (concat (a ∷ b ∷ bufs)) ++ concat (a ∷ b ∷ bufs)))
unfolding write_vectored_all
write_vectored_all_repeats w a b bufs n attempts h k f e =
    if_cases (Repeats a (b ∷ bufs) n h k attempts) (length (concat (a ∷ b ∷ bufs)) == 0)
      (λ zero. absurd (ground (arith, zero, fits a (b ∷ bufs) n h k attempts)))
      (λ some. rw (f, e) (first_write a (b ∷ bufs) n h k attempts))
