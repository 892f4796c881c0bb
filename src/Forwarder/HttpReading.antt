-- ===== src/Forwarder/HttpReading.antt =====
-- How `parse_http_request` of src/client/forwarder.rs reads a head that comes in pieces.
use tls_tunnel.Prelude.{
  ℕ, zero, suc, ◌+◌, ◌-◌, ◌≤◌, ◌<◌, ◌≡◌, refl, ap, sym, ◌∙◌, true, false, none, some, List, [], ◌∷◌,
  ◌++◌, Str, leb, length, take, drop, ◌==◌, nat_eq, All, arith, strip_prefix, is_some, append_assoc,
  length-append, take-length-append, Bool-cases, Option-cases, inl, inr,
}
use tls_tunnel.Forwarder.Http.{
  crlf2, find_end, parse_head, read_head, parse_http_request, http_parse_buffer_size,
}

some_injective : {m n : ℕ} → some m ≡ some n → m ≡ n
some_injective e = cc

strip_prefix-long :
    (p s t : Str)
    → length p ≤ length s
    → is_some (strip_prefix p (s ++ t)) ≡ is_some (strip_prefix p s)
strip_prefix-long [] s t h = refl
strip_prefix-long (c ∷ p) [] t h = absurd (omega arith)
strip_prefix-long (c ∷ p) (d ∷ s) t h = ground (arith, strip_prefix-long p s t (omega arith))

strip_prefix-length : (p s : Str) → is_some (strip_prefix p s) ≡ true → length p ≤ length s
strip_prefix-length [] s h = omega arith
strip_prefix-length (c ∷ p) [] h = cc
strip_prefix-length (c ∷ p) (d ∷ s) h = ground (arith, h, strip_prefix-length p s)

-- An end that is found lies in the text.
find_end-le : (s : Str) (n : ℕ) → find_end s ≡ some n → (4 ≤ n) × (n ≤ length s)
unfolding find_end
find_end-le [] n h = absurd cc
find_end-le (c ∷ s) n h = elim (Bool-cases (is_some (strip_prefix crlf2 (c ∷ s)))) [
  | inl here ↦ ground (arith, here, h, strip_prefix-length crlf2 (c ∷ s) here)
  | inr there ↦ elim (Option-cases (find_end s)) [
    | inl nowhere ↦ absurd (ground (arith, there, h, nowhere))
    | inr (k, found) ↦ ground (arith, there, h, found, find_end-le s k found)
  ]
]

find_end-long : (s t : Str) (n : ℕ) → find_end s ≡ some n → find_end (s ++ t) ≡ some n
unfolding find_end
find_end-long [] t n h = cc
find_end-long (c ∷ s) t n h = elim (Bool-cases (is_some (strip_prefix crlf2 (c ∷ s)))) [
  | inl here ↦
      let size = strip_prefix-length crlf2 (c ∷ s) here in
      ground (arith, here, h, strip_prefix-long crlf2 (c ∷ s) t size)
  | inr there ↦ elim (Option-cases (find_end s)) [
    | inl nowhere ↦ absurd (ground (arith, there, h, nowhere))
    | inr (k, found) ↦
        let size = find_end-le s k found in
        ground (
          arith,
          there,
          h,
          found,
          size,
          find_end-long s t k found,
          strip_prefix-long crlf2 (c ∷ s) t (omega (arith, size)),
        )
  ]
]

-- A text whose end is that of the head has no end before.
find_end-short :
    (s t : Str) → find_end (s ++ t) ≡ some (length s + length t) → 0 < length t → find_end s ≡ none
find_end-short s t h k = elim (Option-cases (find_end s)) [
  | inl nowhere ↦ nowhere
  | inr (n, found) ↦
      let is : length s + length t ≡ n = some_injective (sym h ∙ find_end-long s t n found) in
      absurd (omega (arith, is, k, find_end-le s n found))
]

abbrev pub concat : List Str → Str
concat [] = []
concat (piece ∷ pieces) = piece ++ concat pieces

take-all : {A : Type 0} (n : ℕ) (xs : List A) → length xs ≤ n → (take n xs ≡ xs) × (drop n xs ≡ [])
take-all zero [] h = (refl, refl)
take-all zero (x ∷ xs) h = absurd (omega arith)
take-all (suc n) [] h = (refl, refl)
take-all (suc n) (x ∷ xs) h = ground (arith, take-all n xs (omega arith))

module _ (to_lowercase : Str → Str) where
  -- A read that finds no end, and leaves room, is followed by another.
  read_head-on :
      (buffer piece : Str) (chunks : List Str)
      → 0 < length piece
      → length buffer + length piece < http_parse_buffer_size
      → find_end (buffer ++ piece) ≡ none
      → read_head to_lowercase buffer (piece ∷ chunks)
        ≡ read_head to_lowercase (buffer ++ piece) chunks
  unfolding read_head
  read_head-on buffer piece chunks h k nowhere =
      let whole = take-all (http_parse_buffer_size - length buffer) piece (omega arith) in
      let some_bytes : (length piece == 0) ≡ false = ground (arith, h) in
      let below : leb http_parse_buffer_size (length (buffer ++ piece)) ≡ false =
        ground (arith, k, length-append buffer piece) in
      rw (some_bytes, whole.0, nowhere, whole.0, below) refl

  read_head-found :
      (buffer piece body : Str) (chunks : List Str)
      → 0 < length piece
      → length buffer + length piece + length body ≤ http_parse_buffer_size
      → find_end (buffer ++ piece) ≡ some (length (buffer ++ piece))
      → read_head to_lowercase buffer ((piece ++ body) ∷ chunks)
        ≡ (parse_head to_lowercase (buffer ++ piece), [] ∷ chunks)
  unfolding read_head
  read_head-found buffer piece body chunks h k found =
      let size = length-append piece body in
      let whole =
        take-all (http_parse_buffer_size - length buffer) (piece ++ body) (omega (arith, size)) in
      let some_bytes : (length (piece ++ body) == 0) ≡ false = ground (arith, h, size) in
      let there : find_end (buffer ++ (piece ++ body)) ≡ some (length (buffer ++ piece)) =
        ap find_end (sym (append_assoc buffer piece body))
        ∙ find_end-long (buffer ++ piece) body (length (buffer ++ piece)) found in
      rw (some_bytes, whole.0, there, whole.1, whole.0)
        (ap (λ t. (parse_head to_lowercase t, [] ∷ chunks))
          (ap (take (length (buffer ++ piece))) (sym (append_assoc buffer piece body))
            ∙ take-length-append (buffer ++ piece) body))

  read_head-pieces :
      (buffer : Str) (pieces : List Str) (piece body : Str) (chunks : List Str)
      → All (λ p. 0 < length p) pieces
      → 0 < length piece
      → length (buffer ++ (concat pieces ++ piece)) + length body ≤ http_parse_buffer_size
      → find_end (buffer ++ (concat pieces ++ piece))
        ≡ some (length (buffer ++ (concat pieces ++ piece)))
      → read_head to_lowercase buffer (pieces ++ (piece ++ body) ∷ chunks)
        ≡ (parse_head to_lowercase (buffer ++ (concat pieces ++ piece)), [] ∷ chunks)
  read_head-pieces buffer [] piece body chunks each h k found =
      read_head-found buffer piece body chunks h (omega (arith, k, length-append buffer piece))
        found
  read_head-pieces buffer (p ∷ pieces) piece body chunks each h k found =
      let rest = concat pieces ++ piece in
      let shape : buffer ++ ((p ++ concat pieces) ++ piece) ≡ (buffer ++ p) ++ rest =
        ap (◌++◌ buffer) (append_assoc p (concat pieces) piece)
        ∙ sym (append_assoc buffer p rest) in
      let size = length-append (buffer ++ p) rest in
      let more = length-append (concat pieces) piece in
      let whole = ap length shape in
      let short =
        find_end-short (buffer ++ p) rest
          (ap find_end (sym shape) ∙ found ∙ ap some (omega (arith, whole, size)))
          (omega (arith, h, more)) in
      read_head-on buffer p (pieces ++ (piece ++ body) ∷ chunks) each.0
        (omega (arith, k, whole, size, more, h, length-append buffer p)) short
      ∙ read_head-pieces (buffer ++ p) pieces piece body chunks each.1 h (omega (arith, k, whole))
          (ap find_end (sym shape) ∙ found ∙ ap (λ (t : Str). some (length t)) shape)
      ∙ ap (λ t. (parse_head to_lowercase t, [] ∷ chunks)) (sym shape)

-- A request is parsed from its head, however the head is cut into reads; what the last of these reads found
-- behind the head is in neither the request nor what is left on the connection.
pub parse_http_request-pieces :
    (to_lowercase : Str → Str) (pieces : List Str) (piece body : Str) (chunks : List Str)
    → All (λ p. 0 < length p) pieces
    → 0 < length piece
    → length (concat pieces ++ piece) + length body ≤ http_parse_buffer_size
    → find_end (concat pieces ++ piece) ≡ some (length (concat pieces ++ piece))
    → parse_http_request to_lowercase (pieces ++ (piece ++ body) ∷ chunks)
      ≡ (parse_head to_lowercase (concat pieces ++ piece), [] ∷ chunks)
parse_http_request-pieces to_lowercase pieces piece body chunks each h k found =
    read_head-pieces to_lowercase [] pieces piece body chunks each h k found
