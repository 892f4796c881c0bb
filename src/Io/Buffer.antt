-- ===== src/Io/Buffer.antt =====
-- `VecBuffer` of src/io_util.rs. The capacity is the allocator's affair and left out.
use tls_tunnel.Prelude.{ℕ, ◌≡◌, refl, ap, Bool, List, [], ◌∷◌, ◌++◌, length, Str, ◌==◌, nat_eq}

pub record VecBuffer : Type 0 where
  pub inner : Str

unfoldable pub buffer_new : VecBuffer
buffer_new = record { inner = [] }

unfoldable pub push_slice : Str → VecBuffer → VecBuffer
push_slice data_ b = record { inner = b.inner ++ data_ }

unfoldable pub push_byte : ℕ → VecBuffer → VecBuffer
push_byte byte b = record { inner = b.inner ++ byte ∷ [] }

unfoldable pub as_slice : VecBuffer → Str
as_slice b = b.inner

unfoldable pub clear : VecBuffer → VecBuffer
clear b = record { inner = [] }

unfoldable pub len : VecBuffer → ℕ
len b = length b.inner

unfoldable pub is_empty : VecBuffer → Bool
is_empty b = length b.inner == 0

unfoldable pub into_vec : VecBuffer → Str
into_vec b = b.inner

-- The calls that change a buffer.
pub data Call : Type 0 where
  slice : Str → Call
  byte : ℕ → Call
  cleared : Call

unfoldable pub perform : VecBuffer → Call → VecBuffer
unfolding push_slice push_byte clear
perform b (slice s) = push_slice s b
perform b (byte c) = push_byte c b
perform b cleared = clear b

unfoldable pub perform_all : VecBuffer → List Call → VecBuffer
unfolding perform
perform_all b [] = b
perform_all b (c ∷ cs) = perform_all (perform b c) cs

-- What was pushed since the last clearing, on top of `before`.
abbrev pub pushed : Str → List Call → Str
pushed before [] = before
pushed before (slice s ∷ cs) = pushed (before ++ s) cs
pushed before (byte c ∷ cs) = pushed (before ++ c ∷ []) cs
pushed before (cleared ∷ cs) = pushed [] cs

pub record Holds (b : VecBuffer) (s : Str) : Type 0 where
  pub slice_of : as_slice b ≡ s
  pub length_of : len b ≡ length s
  pub vec_of : into_vec b ≡ s
  pub empty_of : is_empty b ≡ (length s == 0)

perform_all_from : (b : VecBuffer) (cs : List Call) → (perform_all b cs).inner ≡ pushed b.inner cs
unfolding perform_all
perform_all_from b [] = refl
perform_all_from b (slice s ∷ cs) = perform_all_from (push_slice s b) cs
perform_all_from b (byte c ∷ cs) = perform_all_from (push_byte c b) cs
perform_all_from b (cleared ∷ cs) = perform_all_from (clear b) cs

-- A buffer holds what was pushed since it was last cleared, in order, and its length, its emptiness and
-- the vector it turns into are those of these bytes.
pub perform_all-Holds : (cs : List Call) → Holds (perform_all buffer_new cs) (pushed [] cs)
unfolding as_slice len into_vec is_empty buffer_new
perform_all-Holds cs =
    let same = perform_all_from buffer_new cs in
    record {
      slice_of = same;
      length_of = ap length same;
      vec_of = same;
      empty_of = ap (λ s. length s == 0) same;
    }
