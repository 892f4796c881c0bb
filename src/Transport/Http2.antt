-- ===== src/Transport/Http2.antt =====
-- `Http2Stream` of src/transport/http2.rs.
use tls_tunnel.Prelude.{
  ℕ, ◌+◌, Bool, true, false, Option, none, some, List, [], ◌∷◌, ◌++◌, Str, length, take, drop, min,
  ltb, if◌then◌else◌, nat_eq,
}
use tls_tunnel.Transport.ByteStream.{
  PollRead, filled, read_failed, read_pending, PollWrite, written, write_failed, write_pending,
}

-- What one `poll_data` of the h2 library returns.
pub data Frame : Type 0 where
  chunk : Str → Frame
  frame_error stream_ended not_yet : Frame

-- `recv_stream` holds what the next polls of it return, and `released` is the capacity given back to the
-- sender's window.
pub record Http2Stream : Type 0 where
  pub recv_stream : List Frame
  pub released : ℕ
  pub read_buf : Option Str

abbrev pub new : List Frame → Http2Stream
new recv_stream = record { recv_stream = recv_stream; released = 0; read_buf = none }

abbrev pub keep_nonempty : Str → Option Str
keep_nonempty [] = none
keep_nonempty (byte ∷ bytes) = some (byte ∷ bytes)

unfoldable pub poll_buffered : Http2Stream → Str → ℕ → Http2Stream × PollRead
poll_buffered s bytes room =
    let to_read = min (length bytes) room in
    (record s { read_buf = keep_nonempty (drop to_read bytes) }, filled (take to_read bytes))

-- When no more frames are given, none has arrived yet.
unfoldable pub poll_frame : List Frame → Http2Stream → ℕ → Http2Stream × PollRead
poll_frame [] s room = (s, read_pending false)
poll_frame (chunk bytes ∷ frames) s room =
    let to_read = min (length bytes) room in
    (
      record {
        recv_stream = frames;
        released = s.released + to_read;
        read_buf = if ltb to_read (length bytes) then some (drop to_read bytes) else s.read_buf;
      },
      filled (take to_read bytes),
    )
poll_frame (frame_error ∷ frames) s room = (record s { recv_stream = frames }, read_failed)
poll_frame (stream_ended ∷ frames) s room = (record s { recv_stream = frames }, filled [])
poll_frame (not_yet ∷ frames) s room = (record s { recv_stream = frames }, read_pending false)

unfoldable pub poll_from : Option Str → Http2Stream → ℕ → Http2Stream × PollRead
unfolding poll_buffered poll_frame
poll_from none s room = poll_frame s.recv_stream s room
poll_from (some []) s room = poll_frame s.recv_stream s room
poll_from (some (byte ∷ bytes)) s room = poll_buffered s (byte ∷ bytes) room

unfoldable pub poll_read : Http2Stream → ℕ → Http2Stream × PollRead
unfolding poll_from
poll_read s room = poll_from s.read_buf s room

-- What `poll_capacity` returns once the capacity for the buffer is reserved, and whether h2 takes the frame.
pub data Capacity : Type 0 where
  available : (n : ℕ) (sent : Bool) → Capacity
  capacity_error closed no_capacity : Capacity

-- The frames sent, and whether the last of them ends the stream.
pub record SendStream : Type 0 where
  pub frames : List Str
  pub ended : Bool

unfoldable pub poll_write : SendStream → Capacity → Str → SendStream × PollWrite
poll_write s (available n true) buf =
    let to_write = min n (length buf) in
    (record s { frames = s.frames ++ take to_write buf ∷ [] }, written to_write)
poll_write s (available n false) buf = (s, write_failed)
poll_write s capacity_error buf = (s, write_failed)
poll_write s closed buf = (s, write_failed)
poll_write s no_capacity buf = (s, write_pending)

-- An empty frame with END_STREAM, when h2 takes it.
unfoldable pub poll_shutdown : SendStream → Bool → SendStream × PollWrite
poll_shutdown s true = (record { frames = s.frames ++ [] ∷ []; ended = true }, written 0)
poll_shutdown s false = (s, write_failed)
