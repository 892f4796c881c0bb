-- ===== src/Io/Vectored.antt =====
-- `write_vectored_all` and `advance_slices` of src/io_util.rs. The writer answers each call of
-- `write_vectored` as a list of outcomes says; one that takes `n` bytes takes the first `n` of the slices
-- in their order, as its documentation says. `write_all` and `flush` are the writer's own.
use tls_tunnel.Prelude.{
  ℕ, ◌+◌, ◌-◌, Bool, List, [], ◌∷◌, ◌++◌, length, take, ltb, leb, if◌then◌else◌, Str, ◌==◌, nat_eq,
}

pub data Attempt : Type 0 where
  wrote : ℕ → Attempt
  interrupted failed : Attempt

-- How a call ends; `pending` if the list of outcomes ends first.
pub data Ending : Type 0 where
  done write_zero error pending : Ending

pub record Written : Type 0 where
  pub bytes : Str
  pub ending : Ending

unfoldable pub concat : List Str → Str
concat [] = []
concat (slice ∷ slices) = slice ++ concat slices

-- `idx` counts as far as slices were dropped: the result is the rest of the list.
unfoldable pub advance_slices : List Str → ℕ → List Str
advance_slices [] n = []
advance_slices (slice ∷ slices) n =
    let rest = advance_slices slices (n - length slice) in
    if ltb n (length slice) then slice ∷ slices else if n - length slice == 0 then slices else rest

unfoldable pub write_loop : ℕ → ℕ → List Str → Str → Bool → List Attempt → Written
unfolding concat advance_slices
write_loop written total slices out flushes [] = record { bytes = out; ending = pending }
write_loop written total slices out flushes (interrupted ∷ attempts) =
    write_loop written total slices out flushes attempts
write_loop written total slices out flushes (failed ∷ attempts) = record {
  bytes = out;
  ending = error;
}
write_loop written total slices out flushes (wrote n ∷ attempts) =
    let out' = out ++ take n (concat slices) in
    let more = write_loop (written + n) total (advance_slices slices n) out' flushes attempts in
    if n == 0
    then record { bytes = out; ending = write_zero }
    else if leb total (written + n)
    then record { bytes = out'; ending = if flushes then done else error }
    else more

pub record Writer : Type 0 where
  pub write_all : Str → Written
  pub attempts : List Attempt
  pub flushes : Bool

-- `while` with nothing to write goes straight to the flush.
unfoldable pub write_vectored_all : Writer → List Str → Written
unfolding concat write_loop
write_vectored_all w [] = record { bytes = []; ending = done }
write_vectored_all w (buf ∷ []) = w.write_all buf
write_vectored_all w (a ∷ b ∷ bufs) =
    let total = length (concat (a ∷ b ∷ bufs)) in
    let loop = write_loop 0 total (a ∷ b ∷ bufs) [] w.flushes w.attempts in
    if total == 0 then record { bytes = []; ending = if w.flushes then done else error } else loop
