-- ===== src/Io/Delivery.antt =====
-- When `write_vectored_all` of src/io_util.rs writes all of its buffers.
use tls_tunnel.Prelude.{
  ℕ, ◌+◌, ◌-◌, ◌<◌, ◌≡◌, refl, ap, sym, ◌∙◌, Bool, true, false, List, [], ◌∷◌, ◌++◌, length, take,
  ltb, leb, if_cases, Str, arith, ◌==◌, nat_eq, length-append, take-length-append, append_assoc,
  append_nil,
}
use tls_tunnel.Io.Vectored.{
  Attempt, wrote, interrupted, failed, done, Written, concat, advance_slices, write_loop, Writer,
  write_vectored_all,
}

concat-append : (xs ys : List Str) → concat (xs ++ ys) ≡ concat xs ++ concat ys
unfolding concat
concat-append [] ys = refl
concat-append (x ∷ xs) ys =
    ap (λ s. x ++ s) (concat-append xs ys) ∙ sym (append_assoc x (concat xs) (concat ys))

empty_of_length : (s : Str) → length s ≡ 0 → s ≡ []
empty_of_length [] h = refl
empty_of_length (c ∷ s) h = absurd (omega arith)

left_over :
    (x : Str) (front : List Str) → length (x ++ concat front) - length x ≡ length (concat front)
left_over x front = omega (arith, length-append x (concat front))

-- Behind a write that ends with a slice, what is left is what was not written.
advance_slices-boundary :
    (front rest : List Str)
    → 0 < length (concat front)
    → concat (advance_slices (front ++ rest) (length (concat front))) ≡ concat rest
unfolding advance_slices concat
advance_slices-boundary [] rest h = absurd (omega arith)
advance_slices-boundary (x ∷ front) rest h =
    let n = length (x ++ concat front) in
    if_cases (λ l. concat l ≡ concat rest) (ltb n (length x))
      (λ inside. absurd (ground (arith, inside, length-append x (concat front))))
      (λ behind.
        if_cases (λ l. concat l ≡ concat rest) (n - length x == 0)
          (λ all.
            concat-append front rest
            ∙ ap (λ s. s ++ concat rest)
                (empty_of_length (concat front)
                  (ground (arith, all, length-append x (concat front)))))
          (λ more.
            ap (λ k. concat (advance_slices (front ++ rest) k)) (left_over x front)
            ∙ advance_slices-boundary front rest
                (ground (arith, more, length-append x (concat front)))))

-- The end of a slice: the slices in front of it have `n` bytes.
pub record IsBoundary (slices : List Str) (n : ℕ) : Type 0 where
  pub front : List Str
  pub rest : List Str
  pub split : slices ≡ front ++ rest
  pub size : n ≡ length (concat front)

parts :
    {slices : List Str} {n : ℕ} (b : IsBoundary slices n)
    → concat slices ≡ concat b.front ++ concat b.rest
parts b = ap concat b.split ∙ concat-append b.front b.rest

take_at :
    {slices : List Str} {n : ℕ} (b : IsBoundary slices n) → take n (concat slices) ≡ concat b.front
take_at {slices} {n} b =
    ap (take n) (parts b)
    ∙ ap (λ k. take k (concat b.front ++ concat b.rest)) b.size
    ∙ take-length-append (concat b.front) (concat b.rest)

advance_at :
    {slices : List Str} {n : ℕ} (b : IsBoundary slices n)
    → 0 < n
    → concat (advance_slices slices n) ≡ concat b.rest
advance_at {slices} {n} b h =
    ap (λ l. concat (advance_slices l n)) b.split
    ∙ ap (λ k. concat (advance_slices (b.front ++ b.rest) k)) b.size
    ∙ advance_slices-boundary b.front b.rest (omega (arith, b.size))

positive : (n : ℕ) → (n == 0) ≡ false → 0 < n
positive n h = ground arith

rejoined :
    {slices : List Str} {n : ℕ} (b : IsBoundary slices n)
    → 0 < n
    → take n (concat slices) ++ concat (advance_slices slices n) ≡ concat slices
rejoined {slices} {n} b h =
    ap (λ s. s ++ concat (advance_slices slices n)) (take_at b)
    ∙ ap (λ s. concat b.front ++ s) (advance_at b h)
    ∙ sym (parts b)

no_room :
    {slices : List Str} {n : ℕ} (b : IsBoundary slices n) (written total : ℕ)
    → written + length (concat slices) ≡ total
    → leb total (written + n) ≡ true
    → length (concat b.rest) ≡ 0
no_room b written total h last =
    ground
      (arith, b.size, h, last, ap length (parts b), length-append (concat b.front) (concat b.rest))

nothing_left :
    {slices : List Str} {n : ℕ} (b : IsBoundary slices n)
    → length (concat b.rest) ≡ 0
    → concat b.front ≡ concat slices
nothing_left b h =
    sym (append_nil (concat b.front))
    ∙ ap (λ s. concat b.front ++ s) (sym (empty_of_length (concat b.rest) h))
    ∙ sym (parts b)

sizes_left :
    {slices : List Str} {n : ℕ} (b : IsBoundary slices n) (written total : ℕ)
    → written + length (concat slices) ≡ total
    → 0 < n
    → written + n + length (concat (advance_slices slices n)) ≡ total
sizes_left b written total h some = omega (
  arith,
  b.size,
  ap length (parts b),
  length-append (concat b.front) (concat b.rest),
  ap length (advance_at b some),
)

-- Every write ends with a slice of what is then left.
unfoldable pub InSlices : List Str → List Attempt → Type 0
InSlices slices [] = Unit
InSlices slices (interrupted ∷ attempts) = InSlices slices attempts
InSlices slices (failed ∷ attempts) = Unit
InSlices slices (wrote n ∷ attempts) =
    IsBoundary slices n × InSlices (advance_slices slices n) attempts

-- A loop that ends well has written what was left.
abbrev pub Delivers : Str → List Str → Written → Type 0
Delivers out slices w = w.ending ≡ done → w.bytes ≡ out ++ concat slices

write_loop-Delivers :
    (written total : ℕ) (slices : List Str) (out : Str) (flushes : Bool) (attempts : List Attempt)
    → written + length (concat slices) ≡ total
    → InSlices slices attempts
    → Delivers out slices (write_loop written total slices out flushes attempts)
unfolding write_loop InSlices
write_loop-Delivers written total slices out flushes [] h i = λ e. absurd cc
write_loop-Delivers written total slices out flushes (interrupted ∷ attempts) h i =
    write_loop-Delivers written total slices out flushes attempts h i
write_loop-Delivers written total slices out flushes (failed ∷ attempts) h i = λ e. absurd cc
write_loop-Delivers written total slices out flushes (wrote n ∷ attempts) h (b, i) =
    if_cases (Delivers out slices) (n == 0) (λ zero e. absurd cc)
      (λ some.
        if_cases (Delivers out slices) (leb total (written + n))
          (λ last e.
            ap (λ s. out ++ s) (take_at b ∙ nothing_left b (no_room b written total h last)))
          (λ more e.
            write_loop-Delivers (written + n) total (advance_slices slices n)
              (out ++ take n (concat slices)) flushes attempts
              (sizes_left b written total h (positive n some)) i e
            ∙ append_assoc out (take n (concat slices)) (concat (advance_slices slices n))
            ∙ ap (λ s. out ++ s) (rejoined b (positive n some))))

-- If every write of the writer ends with one of the slices that are left, a call for several buffers that
-- ends well has written all of them in order.
pub write_vectored_all-Delivers :
    (w : Writer) (a b : Str) (bufs : List Str)
    → InSlices (a ∷ b ∷ bufs) w.attempts
    → Delivers [] (a ∷ b ∷ bufs) (write_vectored_all w (a ∷ b ∷ bufs))
unfolding write_vectored_all
write_vectored_all-Delivers w a b bufs i =
    let all = concat (a ∷ b ∷ bufs) in
    if_cases (Delivers [] (a ∷ b ∷ bufs)) (length all == 0)
      (λ zero e. sym (empty_of_length all (ground (arith, zero))))
      (λ some.
        write_loop-Delivers 0 (length all) (a ∷ b ∷ bufs) [] w.flushes w.attempts (omega arith) i)
