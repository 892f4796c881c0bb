-- ===== src/Transport/ByteStream.antt =====
-- What the users of src/transport see of a stream: bytes that are due, and polls that take them in order.
use tls_tunnel.Prelude.{
  ℕ, ◌≡◌, ◌≤◌, refl, ap, ◌∙◌, List, [], ◌∷◌, ◌++◌, Str, Bool, length, append_assoc,
}

-- What `poll_read` returns: `filled` is Ready(Ok), with the bytes it has put into the buffer. A poll that is
-- pending may have woken its own task, to be polled again at once.
pub data PollRead : Type 0 where
  filled : Str → PollRead
  read_failed : PollRead
  read_pending : (woken : Bool) → PollRead

abbrev pub put_bytes : PollRead → Str
put_bytes (filled bytes) = bytes
put_bytes read_failed = []
put_bytes (read_pending woken) = []

-- What `poll_write` returns.
pub data PollWrite : Type 0 where
  written : ℕ → PollWrite
  write_failed write_pending : PollWrite

-- `unread` are the bytes that the stream still has to deliver.
pub record ByteStream : Type 1 where
  pub State : Type 0
  pub poll_read : State → ℕ → State × PollRead
  pub unread : State → Str
  pub reads_next :
      (s : State) (room : ℕ)
      → put_bytes (poll_read s room).1 ++ unread (poll_read s room).0 ≡ unread s
  pub reads_within : (s : State) (room : ℕ) → length (put_bytes (poll_read s room).1) ≤ room

module _ (b : ByteStream) where
  open b use {State, poll_read, unread, reads_next}

  -- Polls with buffers of these sizes, and the bytes that they put together.
  abbrev pub poll_reads : State → List ℕ → State × Str
  poll_reads s [] = (s, [])
  poll_reads s (room ∷ rooms) =
      let next = poll_read s room in
      let rest = poll_reads next.0 rooms in (rest.0, put_bytes next.1 ++ rest.1)

  pub poll_reads-unread :
      (s : State) (rooms : List ℕ)
      → (poll_reads s rooms).1 ++ unread (poll_reads s rooms).0 ≡ unread s
  poll_reads-unread s [] = refl
  poll_reads-unread s (room ∷ rooms) =
      let next = poll_read s room in
      append_assoc (put_bytes next.1) (poll_reads next.0 rooms).1
        (unread (poll_reads next.0 rooms).0)
      ∙ ap (λ t. put_bytes next.1 ++ t) (poll_reads-unread next.0 rooms)
      ∙ reads_next s room
