-- ===== src/Transport/Ends.antt =====
-- When a reader of src/transport/http2.rs and src/transport/wss.rs is told that the stream is at its end.
use tls_tunnel.Prelude.{
  ℕ, ◌≡◌, ◌<◌, ◌≤◌, ◌-◌, ◌↔◌, refl, ap, Option, none, some, List, [], ◌∷◌, Str, length, take, drop,
  min, ltb, if_cases, arith, length-take, take_nil, length-drop,
}
use tls_tunnel.Transport.ByteStream.{PollRead, filled}
use tls_tunnel.Transport.Http2
use tls_tunnel.Transport.Http2.{Http2Stream, Frame, chunk, frame_error, stream_ended}
use tls_tunnel.Transport.Wss
use tls_tunnel.Transport.Wss.{
  WssStream, Message, binary, close, ping_pong, text, message_error, messages_ended,
}
use tls_tunnel.Transport.Streams.{buffered}

-- The next frame ends the stream, or has no bytes.
abbrev pub FrameEnds : List Frame → Type 0
FrameEnds [] = ⊥
FrameEnds (chunk bytes ∷ frames) = bytes ≡ []
FrameEnds (frame_error ∷ frames) = ⊥
FrameEnds (stream_ended ∷ frames) = Unit
FrameEnds (Http2.not_yet ∷ frames) = ⊥

-- The next message ends the stream, or is a binary one with no bytes.
abbrev pub MessageEnds : List Message → Type 0
MessageEnds [] = ⊥
MessageEnds (binary bytes ∷ messages) = bytes ≡ []
MessageEnds (close ∷ messages) = Unit
MessageEnds (ping_pong ∷ messages) = ⊥
MessageEnds (text ∷ messages) = ⊥
MessageEnds (message_error ∷ messages) = ⊥
MessageEnds (messages_ended ∷ messages) = Unit
MessageEnds (Wss.not_yet ∷ messages) = ⊥

filled_injective : {a b : Str} → filled a ≡ filled b → a ≡ b
filled_injective e = cc

take_empty :
    (bytes : Str) (room : ℕ)
    → 0 < room
    → (filled (take (min (length bytes) room) bytes) ≡ filled []) ↔ (bytes ≡ [])
take_empty [] room h = (λ e. refl, λ e. ap filled (take_nil (min 0 room)))
take_empty (byte ∷ bytes) room h = (
  λ e. absurd (
      omega (
        arith,
        ap length (filled_injective e),
        length-take (min (length (byte ∷ bytes)) room) (byte ∷ bytes),
      )),
  λ e. absurd (omega (arith, ap length e)),
)

module _ (s : Http2Stream) (room : ℕ) (h : 0 < room) where
  poll_frame_end_iff :
      (frames : List Frame) → ((Http2.poll_frame frames s room).1 ≡ filled []) ↔ FrameEnds frames
  unfolding Http2.poll_frame
  poll_frame_end_iff [] = (λ e. cc, λ f. absurd f)
  poll_frame_end_iff (chunk bytes ∷ frames) = take_empty bytes room h
  poll_frame_end_iff (frame_error ∷ frames) = (λ e. cc, λ f. absurd f)
  poll_frame_end_iff (stream_ended ∷ frames) = (λ e. tt, λ f. refl)
  poll_frame_end_iff (Http2.not_yet ∷ frames) = (λ e. cc, λ f. absurd f)

  poll_from_end_iff :
      (read_buf : Option Str)
      → ((Http2.poll_from read_buf s room).1 ≡ filled [])
        ↔ ((buffered read_buf ≡ []) × FrameEnds s.recv_stream)
  unfolding Http2.poll_from
  poll_from_end_iff none =
      let next = poll_frame_end_iff s.recv_stream in (λ e. (refl, next.0 e), λ e. next.1 e.1)
  poll_from_end_iff (some []) =
      let next = poll_frame_end_iff s.recv_stream in (λ e. (refl, next.0 e), λ e. next.1 e.1)
  poll_from_end_iff (some (byte ∷ bytes)) = (
    λ e. absurd (omega (arith, ap length ((take_empty (byte ∷ bytes) room h).0 e))),
    λ e. absurd (omega (arith, ap length e.0)),
  )

  -- A read with room in its buffer is told of the end of an HTTP/2 stream exactly when nothing is buffered and
  -- the next frame ends the stream, or is an empty one.
  pub http2_end_iff :
      ((Http2.poll_read s room).1 ≡ filled [])
      ↔ ((buffered s.read_buf ≡ []) × FrameEnds s.recv_stream)
  unfolding Http2.poll_read
  http2_end_iff = poll_from_end_iff s.read_buf

module _ (s : WssStream) (room : ℕ) (h : 0 < room) where
  poll_message_end_iff :
      (messages : List Message)
      → ((Wss.poll_message messages s room).1 ≡ filled []) ↔ MessageEnds messages
  unfolding Wss.poll_message
  poll_message_end_iff [] = (λ e. cc, λ f. absurd f)
  poll_message_end_iff (binary bytes ∷ messages) = take_empty bytes room h
  poll_message_end_iff (close ∷ messages) = (λ e. tt, λ f. refl)
  poll_message_end_iff (ping_pong ∷ messages) = (λ e. cc, λ f. absurd f)
  poll_message_end_iff (text ∷ messages) = (λ e. cc, λ f. absurd f)
  poll_message_end_iff (message_error ∷ messages) = (λ e. cc, λ f. absurd f)
  poll_message_end_iff (messages_ended ∷ messages) = (λ e. tt, λ f. refl)
  poll_message_end_iff (Wss.not_yet ∷ messages) = (λ e. cc, λ f. absurd f)

  -- A read with room in its buffer is told of the end of a WebSocket stream exactly when nothing is buffered
  -- and the next message is a close, the end, or an empty binary one.
  pub wss_end_iff :
      ((Wss.poll_read s room).1 ≡ filled [])
      ↔ ((length s.read_buf ≤ s.read_pos) × MessageEnds s.ws_stream)
  unfolding Wss.poll_read Wss.poll_buffered
  wss_end_iff =
      if_cases
        (λ (r : WssStream × PollRead).
          (r.1 ≡ filled []) ↔ ((length s.read_buf ≤ s.read_pos) × MessageEnds s.ws_stream))
        (ltb s.read_pos (length s.read_buf))
        (λ more. (
          λ e. absurd (
              ground (
                arith,
                more,
                ap length (filled_injective e),
                length-drop s.read_pos s.read_buf,
                length-take (min (length s.read_buf - s.read_pos) room)
                    (drop s.read_pos s.read_buf),
              )),
          λ e. absurd (ground (arith, more, e.0)),
        ))
        (λ all.
          let next = poll_message_end_iff s.ws_stream in
          (λ e. (ground (arith, all), next.0 e), λ e. next.1 e.1))
