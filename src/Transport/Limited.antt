-- ===== src/Transport/Limited.antt =====
-- `LimitedReader` of src/limited_reader.rs.
use tls_tunnel.Prelude.{
  ℕ, zero, suc, ◌-◌, ◌*◌, ◌≡◌, ◌<◌, refl, ap, sym, subst, ◌∙◌, Bool, false, Str, length, min,
  if◌then◌else◌, ◌==◌, nat_eq, arith,
}
use tls_tunnel.Transport.ByteStream.{PollRead, filled, read_failed, read_pending}

abbrev pub default_max_request_size : ℕ
default_max_request_size = 1024 * 1024

abbrev pub default_max_header_size : ℕ
default_max_header_size = 8 * 1024

-- The caller's buffer: what is filled of it, and how much it holds.
pub record ReadBuf : Type 0 where
  pub contents : Str
  pub capacity : ℕ

pub data PollLimited : Type 0 where
  ready : PollLimited
  limit_exceeded : (limit : ℕ) → PollLimited
  inner_failed : PollLimited
  pending : (woken : Bool) → PollLimited

pub record LimitedReader {ℓ} (R : Type ℓ) : Type ℓ where
  pub inner : R
  pub remaining : ℕ
  pub limit : ℕ

module _ {ℓ} {R : Type ℓ} where
  abbrev pub new : R → ℕ → LimitedReader R
  new inner limit = record { inner = inner; remaining = limit; limit = limit }

  unfoldable pub with_default_limit : R → LimitedReader R
  with_default_limit inner = new inner default_max_request_size

  unfoldable pub with_header_limit : R → LimitedReader R
  with_header_limit inner = new inner default_max_header_size

  unfoldable pub read_count : LimitedReader R → ℕ
  read_count r = r.limit - r.remaining

  unfoldable pub reset_limit : LimitedReader R → ℕ → LimitedReader R
  reset_limit r new_limit = record r { limit = new_limit; remaining = new_limit }

  -- The inner reader fills `limited`, a buffer of its own over the free part of `buf`; `before` is what `buf`
  -- held when the poll began.
  unfoldable pub count_read :
      LimitedReader R → ReadBuf → ℕ → R × PollRead → LimitedReader R × ReadBuf × PollLimited
  count_read r buf before (inner, filled limited) =
      let after = length buf.contents in
      let read = after - before in
      (record r { inner = inner; remaining = r.remaining - read }, buf, ready)
  count_read r buf before (inner, read_failed) = (record r { inner = inner }, buf, inner_failed)
  count_read r buf before (inner, read_pending woken) =
      (record r { inner = inner }, buf, pending woken)

  unfoldable pub poll_read :
      (R → ℕ → R × PollRead) → LimitedReader R → ReadBuf → LimitedReader R × ReadBuf × PollLimited
  unfolding count_read
  poll_read inner_poll r buf =
      let before = length buf.contents in
      let limit = min r.remaining (buf.capacity - before) in
      if r.remaining == 0
      then (r, buf, limit_exceeded r.limit)
      else count_read r buf before (inner_poll r.inner limit)

  -- A caller that polls again and again with what its buffer has become.
  abbrev pub poll_times :
      (R → ℕ → R × PollRead) → ℕ → LimitedReader R → ReadBuf → LimitedReader R × ReadBuf
  poll_times inner_poll zero r buf = (r, buf)
  poll_times inner_poll (suc n) r buf =
      let next = poll_read inner_poll r buf in poll_times inner_poll n next.0 next.1

  -- What the inner reader becomes when it alone is polled, with room for `room` bytes.
  abbrev pub inner_after : (R → ℕ → R × PollRead) → ℕ → ℕ → R → R
  inner_after inner_poll zero room inner = inner
  inner_after inner_poll (suc n) room inner =
      inner_after inner_poll n room (inner_poll inner room).0

  count_read-keeps :
      (r : LimitedReader R) (buf : ReadBuf) (polled : R × PollRead)
      → ((count_read r buf (length buf.contents) polled).0 ≡ record r { inner = polled.0 })
        × ((count_read r buf (length buf.contents) polled).1 ≡ buf)
  unfolding count_read
  count_read-keeps r buf (inner, filled limited) =
      (ap (λ k. record r { inner = inner; remaining = k }) (omega arith), refl)
  count_read-keeps r buf (inner, read_failed) = (refl, refl)
  count_read-keeps r buf (inner, read_pending woken) = (refl, refl)

  poll_read-keeps :
      (inner_poll : R → ℕ → R × PollRead) (r : LimitedReader R) (buf : ReadBuf)
      → 0 < r.remaining
      → let room = min r.remaining (buf.capacity - length buf.contents) in
        ((poll_read inner_poll r buf).0 ≡ record r { inner = (inner_poll r.inner room).0 })
        × ((poll_read inner_poll r buf).1 ≡ buf)
  unfolding poll_read
  poll_read-keeps inner_poll r buf h =
      let room = min r.remaining (buf.capacity - length buf.contents) in
      let open_limit : (r.remaining == 0) ≡ false = ground arith in
      rw open_limit (count_read-keeps r buf (inner_poll r.inner room))

  -- While bytes remain of the limit, polls consume what the inner reader gives and deliver none of it: however
  -- often the caller polls, its buffer and the bytes that remain are what they were, and the inner reader is
  -- where as many polls of its own leave it.
  pub poll_times-lost :
      (inner_poll : R → ℕ → R × PollRead) (n : ℕ) (r : LimitedReader R) (buf : ReadBuf)
      → 0 < r.remaining
      → ((poll_times inner_poll n r buf).1 ≡ buf)
        × ((poll_times inner_poll n r buf).0 ≡ record r {
          inner =
              inner_after inner_poll n
                (min r.remaining (buf.capacity - length buf.contents))
                r.inner;
        })
  poll_times-lost inner_poll zero r buf h = (refl, refl)
  poll_times-lost inner_poll (suc n) r buf h =
      let kept = poll_read-keeps inner_poll r buf h in
      let room = min r.remaining (buf.capacity - length buf.contents) in
      let next : LimitedReader R = record r { inner = (inner_poll r.inner room).0 } in
      let step : poll_times inner_poll (suc n) r buf ≡ poll_times inner_poll n next buf =
        ap (λ t. poll_times inner_poll n t (poll_read inner_poll r buf).1) kept.0
        ∙ ap (λ t. poll_times inner_poll n next t) kept.1 in
      let lost : LimitedReader R = record r {
        inner = inner_after inner_poll (suc n) room r.inner;
      } in
      subst (λ (t : LimitedReader R × ReadBuf). (t.1 ≡ buf) × (t.0 ≡ lost)) (sym step)
        (poll_times-lost inner_poll n next buf h)
