-- ===== src/Forwarder/Copy.antt =====
-- `copy_with_stats` of src/client/forwarder.rs.
use tls_tunnel.Prelude.{
  ℕ, ◌+◌, ◌%◌, ◌<◌, ◌≡◌, if_both, Bool, true, false, List, [], ◌∷◌, ◌++◌, Str, length,
  if◌then◌else◌, ◌==◌, nat_eq, Outcome, ok, err, arith, length-append, refl, ◌∙◌, sym,
}
use tls_tunnel.Stats.Tracker.{fetch_add, u64_mod}

-- What one read finds, within the time allowed: at most a buffer of bytes, none at the end; and whether the
-- write behind it succeeds.
pub data Read : Type 0 where
  arrives : (bytes : Str) (written : Bool) → Read
  read_fails idle_timeout : Read

pub data CopyError : Type 0 where
  read_error write_error timed_out : CopyError

-- The counter that the caller records bytes in, what has been written, and how the copy ended.
pub record Copied : Type 0 where
  pub counter : ℕ
  pub output : Str
  pub result : Outcome CopyError ℕ

-- When no more is given, the copy waits until the connection is idle for too long.
unfoldable pub copy_loop : ℕ → Str → ℕ → List Read → Copied
unfolding fetch_add
copy_loop counter output total_copied [] = record {
  counter = counter;
  output = output;
  result = err timed_out;
}
copy_loop counter output total_copied (read_fails ∷ reads) = record {
  counter = counter;
  output = output;
  result = err read_error;
}
copy_loop counter output total_copied (idle_timeout ∷ reads) = record {
  counter = counter;
  output = output;
  result = err timed_out;
}
copy_loop counter output total_copied (arrives bytes written ∷ reads) =
    let more =
      copy_loop (fetch_add counter (length bytes)) (output ++ bytes) (total_copied + length bytes)
        reads in
    if length bytes == 0
    then record { counter = counter; output = output; result = ok total_copied }
    else if written
    then more
    else record { counter = counter; output = output; result = err write_error }

abbrev pub copy_with_stats : ℕ → List Read → Copied
copy_with_stats counter reads = copy_loop counter [] 0 reads

copy_loop-counts :
    (reads : List Read) (counter : ℕ) (output : Str) (total : ℕ)
    → (total ≡ length output)
    → ((copy_loop counter output total reads).counter + length output) % u64_mod
      ≡ (counter + length (copy_loop counter output total reads).output) % u64_mod
unfolding copy_loop fetch_add
copy_loop-counts [] counter output total h = refl
copy_loop-counts (read_fails ∷ reads) counter output total h = refl
copy_loop-counts (idle_timeout ∷ reads) counter output total h = refl
copy_loop-counts (arrives bytes false ∷ reads) counter output total h = ground arith
copy_loop-counts (arrives bytes true ∷ reads) counter output total h = ground (
  arith,
  h,
  length-append output bytes,
  copy_loop-counts reads ((counter + length bytes) % u64_mod) (output ++ bytes)
      (total + length bytes) (omega (arith, h, length-append output bytes)),
)

ok_injective : {m n : ℕ} → ◌≡◌ {A = Outcome CopyError ℕ} (ok m) (ok n) → m ≡ n
ok_injective e = cc

copy_loop-bounded :
    (reads : List Read) (counter : ℕ) (output : Str) (total : ℕ)
    → counter < u64_mod
    → total ≡ length output
    → ((copy_loop counter output total reads).counter < u64_mod)
      × ((n : ℕ)
          → (copy_loop counter output total reads).result ≡ ok n
          → n ≡ length (copy_loop counter output total reads).output)
unfolding copy_loop fetch_add
copy_loop-bounded [] counter output total b h = (b, λ n e. absurd (cc e))
copy_loop-bounded (read_fails ∷ reads) counter output total b h = (b, λ n e. absurd (cc e))
copy_loop-bounded (idle_timeout ∷ reads) counter output total b h = (b, λ n e. absurd (cc e))
copy_loop-bounded (arrives bytes false ∷ reads) counter output total b h =
    if_both
      (λ (c : Copied). (c.counter < u64_mod) × ((n : ℕ) → c.result ≡ ok n → n ≡ length c.output))
      (length bytes == 0) (b, λ n e. sym (ok_injective e) ∙ h) (b, λ n e. absurd (cc e))
copy_loop-bounded (arrives bytes true ∷ reads) counter output total b h =
    if_both
      (λ (c : Copied). (c.counter < u64_mod) × ((n : ℕ) → c.result ≡ ok n → n ≡ length c.output))
      (length bytes == 0) (b, λ n e. sym (ok_injective e) ∙ h)
      (copy_loop-bounded reads ((counter + length bytes) % u64_mod) (output ++ bytes)
        (total + length bytes) (omega arith) (omega (arith, h, length-append output bytes)))

-- However a copy ends, its caller's counter has grown by the bytes that were written, and a copy that ends
-- well returns their number.
pub copy_with_stats-counts :
    (reads : List Read) (counter : ℕ)
    → counter < u64_mod
    → ((copy_with_stats counter reads).counter
        ≡ (counter + length (copy_with_stats counter reads).output) % u64_mod)
      × ((n : ℕ)
          → (copy_with_stats counter reads).result ≡ ok n
          → n ≡ length (copy_with_stats counter reads).output)
copy_with_stats-counts reads counter b =
    let bounded = copy_loop-bounded reads counter [] 0 b refl in
    (omega (arith, copy_loop-counts reads counter [] 0 refl, bounded.0), bounded.1)
