-- ===== src/Transport/Wss.antt =====
-- `WssStream` of src/transport/wss.rs.
use tls_tunnel.Prelude.{
  ℕ, ◌+◌, ◌-◌, Bool, true, false, List, [], ◌∷◌, ◌++◌, Str, length, take, drop, min, ltb, leb,
  if◌then◌else◌,
}
use tls_tunnel.Transport.ByteStream.{
  PollRead, filled, read_failed, read_pending, PollWrite, written, write_failed, write_pending,
}

-- What one poll of the WebSocket returns: a message, an error, the end, or nothing yet.
pub data Message : Type 0 where
  binary : Str → Message
  close ping_pong text : Message
  message_error messages_ended not_yet : Message

pub record WssStream : Type 0 where
  pub ws_stream : List Message
  pub read_buf : Str
  pub read_pos : ℕ

abbrev pub new : List Message → WssStream
new ws_stream = record { ws_stream = ws_stream; read_buf = []; read_pos = 0 }

unfoldable pub poll_buffered : WssStream → ℕ → WssStream × PollRead
poll_buffered s room =
    let to_read = min (length s.read_buf - s.read_pos) room in
    let read_pos = s.read_pos + to_read in
    (
      if leb (length s.read_buf) read_pos
          then record s { read_buf = []; read_pos = 0 }
          else record s { read_pos = read_pos },
      filled (take to_read (drop s.read_pos s.read_buf)),
    )

-- When no more messages are given, none has arrived yet.
unfoldable pub poll_message : List Message → WssStream → ℕ → WssStream × PollRead
poll_message [] s room = (s, read_pending false)
poll_message (binary bytes ∷ messages) s room =
    let to_read = min (length bytes) room in
    (
      if ltb to_read (length bytes)
          then record { ws_stream = messages; read_buf = drop to_read bytes; read_pos = 0 }
          else record s { ws_stream = messages },
      filled (take to_read bytes),
    )
poll_message (close ∷ messages) s room = (record s { ws_stream = messages }, filled [])
poll_message (ping_pong ∷ messages) s room = (record s { ws_stream = messages }, read_pending true)
poll_message (text ∷ messages) s room = (record s { ws_stream = messages }, read_pending true)
poll_message (message_error ∷ messages) s room = (record s { ws_stream = messages }, read_failed)
poll_message (messages_ended ∷ messages) s room = (record s { ws_stream = messages }, filled [])
poll_message (not_yet ∷ messages) s room = (record s { ws_stream = messages }, read_pending false)

unfoldable pub poll_read : WssStream → ℕ → WssStream × PollRead
unfolding poll_buffered poll_message
poll_read s room =
    if ltb s.read_pos (length s.read_buf)
    then poll_buffered s room
    else poll_message s.ws_stream s room

-- Whether the sink is ready, and whether it takes the message.
pub data Sink : Type 0 where
  ready : (sent : Bool) → Sink
  sink_error not_ready : Sink

-- The messages sent grow by the whole buffer.
unfoldable pub poll_write : List Str → Sink → Str → List Str × PollWrite
poll_write messages (ready true) buf = (messages ++ buf ∷ [], written (length buf))
poll_write messages (ready false) buf = (messages, write_failed)
poll_write messages sink_error buf = (messages, write_failed)
poll_write messages not_ready buf = (messages, write_pending)
