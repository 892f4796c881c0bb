-- ===== src/Transport/Streams.antt =====
-- The HTTP/2 and WebSocket streams of src/transport as byte streams.
use tls_tunnel.Prelude.{
  ℕ, ◌+◌, ◌-◌, ◌≡◌, ◌≤◌, refl, ap, sym, ◌∙◌, Option, none, some, List, [], ◌∷◌, ◌++◌, Str, length,
  take, drop, min, ltb, leb, if_cases, if_both, if◌then◌else◌, arith, length-take, take-append-drop,
  drop-drop, drop_all, append_assoc,
}
use tls_tunnel.Transport.ByteStream.{ByteStream, PollRead, put_bytes}
use tls_tunnel.Transport.Http2
use tls_tunnel.Transport.Wss
use tls_tunnel.Transport.Wss.{WssStream}
use tls_tunnel.Transport.Http2.{
  Http2Stream, Frame, chunk, frame_error, stream_ended, not_yet, keep_nonempty,
}

abbrev pub buffered : Option Str → Str
buffered none = []
buffered (some bytes) = bytes

-- The bytes of the frames that arrive, in their order.
abbrev pub frames_payload : List Frame → Str
frames_payload [] = []
frames_payload (chunk bytes ∷ frames) = bytes ++ frames_payload frames
frames_payload (frame_error ∷ frames) = frames_payload frames
frames_payload (stream_ended ∷ frames) = frames_payload frames
frames_payload (not_yet ∷ frames) = frames_payload frames

abbrev pub http2_unread : Http2Stream → Str
http2_unread s = buffered s.read_buf ++ frames_payload s.recv_stream

buffered-keep_nonempty : (bytes : Str) → buffered (keep_nonempty bytes) ≡ bytes
buffered-keep_nonempty [] = refl
buffered-keep_nonempty (byte ∷ bytes) = refl

split_at : (n : ℕ) (bytes rest : Str) → take n bytes ++ (drop n bytes ++ rest) ≡ bytes ++ rest
split_at n bytes rest =
    sym (append_assoc (take n bytes) (drop n bytes) rest)
    ∙ ap (λ t. t ++ rest) (take-append-drop n bytes)

-- The buffer behind a frame of which `n` bytes are read, when it had none.
rest_of_frame :
    (n : ℕ) (bytes : Str) (read_buf : Option Str)
    → buffered read_buf ≡ []
    → buffered (if ltb n (length bytes) then some (drop n bytes) else read_buf) ≡ drop n bytes
rest_of_frame n bytes read_buf empty =
    if_cases (λ b. buffered b ≡ drop n bytes) (ltb n (length bytes)) (λ more. refl)
      (λ all. empty ∙ sym (drop_all n bytes (ground (arith, all))))

module _ (s : Http2Stream) (room : ℕ) where
  poll_frame-unread :
      (frames : List Frame)
      → buffered s.read_buf ≡ []
      → s.recv_stream ≡ frames
      → put_bytes (Http2.poll_frame frames s room).1
          ++ http2_unread (Http2.poll_frame frames s room).0
        ≡ frames_payload frames
  unfolding Http2.poll_frame
  poll_frame-unread [] empty e = rw empty (ap frames_payload e)
  poll_frame-unread (chunk bytes ∷ frames) empty e =
      let n = min (length bytes) room in
      rw (rest_of_frame n bytes s.read_buf empty) (split_at n bytes (frames_payload frames))
  poll_frame-unread (frame_error ∷ frames) empty e = rw empty
  poll_frame-unread (stream_ended ∷ frames) empty e = rw empty
  poll_frame-unread (not_yet ∷ frames) empty e = rw empty

  poll_frame_within :
      (frames : List Frame) → length (put_bytes (Http2.poll_frame frames s room).1) ≤ room
  unfolding Http2.poll_frame
  poll_frame_within [] = omega arith
  poll_frame_within (chunk bytes ∷ frames) =
      omega (arith, length-take (min (length bytes) room) bytes)
  poll_frame_within (frame_error ∷ frames) = omega arith
  poll_frame_within (stream_ended ∷ frames) = omega arith
  poll_frame_within (not_yet ∷ frames) = omega arith

  poll_from-unread :
      (read_buf : Option Str)
      → s.read_buf ≡ read_buf
      → put_bytes (Http2.poll_from read_buf s room).1
          ++ http2_unread (Http2.poll_from read_buf s room).0
        ≡ buffered read_buf ++ frames_payload s.recv_stream
  unfolding Http2.poll_from
  poll_from-unread none e = poll_frame-unread s.recv_stream (ap buffered e) refl
  poll_from-unread (some []) e = poll_frame-unread s.recv_stream (ap buffered e) refl
  poll_from-unread (some (byte ∷ bytes)) e =
      let n = min (length (byte ∷ bytes)) room in
      rw (buffered-keep_nonempty (drop n (byte ∷ bytes)))
        (split_at n (byte ∷ bytes) (frames_payload s.recv_stream))

  poll_from_within :
      (read_buf : Option Str) → length (put_bytes (Http2.poll_from read_buf s room).1) ≤ room
  unfolding Http2.poll_from
  poll_from_within none = poll_frame_within s.recv_stream
  poll_from_within (some []) = poll_frame_within s.recv_stream
  poll_from_within (some (byte ∷ bytes)) =
      omega (arith, length-take (min (length (byte ∷ bytes)) room) (byte ∷ bytes))

pub http2-reads_next :
    (s : Http2Stream) (room : ℕ)
    → put_bytes (Http2.poll_read s room).1 ++ http2_unread (Http2.poll_read s room).0
      ≡ http2_unread s
unfolding Http2.poll_read
http2-reads_next s room = poll_from-unread s room s.read_buf refl

pub http2-reads_within :
    (s : Http2Stream) (room : ℕ) → length (put_bytes (Http2.poll_read s room).1) ≤ room
unfolding Http2.poll_read
http2-reads_within s room = poll_from_within s room s.read_buf

abbrev pub http2 : ByteStream
http2 = record {
  State = Http2Stream;
  poll_read = Http2.poll_read;
  unread = http2_unread;
  reads_next = http2-reads_next;
  reads_within = http2-reads_within;
}

-- The bytes of the binary messages that arrive, in their order.
abbrev pub messages_payload : List Wss.Message → Str
messages_payload [] = []
messages_payload (Wss.binary bytes ∷ messages) = bytes ++ messages_payload messages
messages_payload (Wss.close ∷ messages) = messages_payload messages
messages_payload (Wss.ping_pong ∷ messages) = messages_payload messages
messages_payload (Wss.text ∷ messages) = messages_payload messages
messages_payload (Wss.message_error ∷ messages) = messages_payload messages
messages_payload (Wss.messages_ended ∷ messages) = messages_payload messages
messages_payload (Wss.not_yet ∷ messages) = messages_payload messages

abbrev pub wss_unread : WssStream → Str
wss_unread s = drop s.read_pos s.read_buf ++ messages_payload s.ws_stream

module _ (s : WssStream) (room : ℕ) where
  poll_message-unread :
      (messages : List Wss.Message)
      → drop s.read_pos s.read_buf ≡ []
      → s.ws_stream ≡ messages
      → put_bytes (Wss.poll_message messages s room).1
          ++ wss_unread (Wss.poll_message messages s room).0
        ≡ messages_payload messages
  unfolding Wss.poll_message
  poll_message-unread [] empty e = rw empty (ap messages_payload e)
  poll_message-unread (Wss.binary bytes ∷ messages) empty e =
      let n = min (length bytes) room in
      ap (λ t. take n bytes ++ t)
        (if_cases (λ t. wss_unread t ≡ drop n bytes ++ messages_payload messages)
          (ltb n (length bytes)) (λ more. refl)
          (λ all.
            ap (λ t. t ++ messages_payload messages)
              (empty ∙ sym (drop_all n bytes (ground (arith, all))))))
      ∙ split_at n bytes (messages_payload messages)
  poll_message-unread (Wss.close ∷ messages) empty e = rw empty
  poll_message-unread (Wss.ping_pong ∷ messages) empty e = rw empty
  poll_message-unread (Wss.text ∷ messages) empty e = rw empty
  poll_message-unread (Wss.message_error ∷ messages) empty e = rw empty
  poll_message-unread (Wss.messages_ended ∷ messages) empty e = rw empty
  poll_message-unread (Wss.not_yet ∷ messages) empty e = rw empty

  poll_message_within :
      (messages : List Wss.Message) → length (put_bytes (Wss.poll_message messages s room).1) ≤ room
  unfolding Wss.poll_message
  poll_message_within [] = omega arith
  poll_message_within (Wss.binary bytes ∷ messages) =
      omega (arith, length-take (min (length bytes) room) bytes)
  poll_message_within (Wss.close ∷ messages) = omega arith
  poll_message_within (Wss.ping_pong ∷ messages) = omega arith
  poll_message_within (Wss.text ∷ messages) = omega arith
  poll_message_within (Wss.message_error ∷ messages) = omega arith
  poll_message_within (Wss.messages_ended ∷ messages) = omega arith
  poll_message_within (Wss.not_yet ∷ messages) = omega arith

  poll_buffered-unread :
      put_bytes (Wss.poll_buffered s room).1 ++ wss_unread (Wss.poll_buffered s room).0
      ≡ wss_unread s
  unfolding Wss.poll_buffered
  poll_buffered-unread =
      let due = drop s.read_pos s.read_buf in
      let n = min (length s.read_buf - s.read_pos) room in
      let later = drop-drop s.read_pos n s.read_buf in
      ap (λ t. take n due ++ t)
        (if_cases (λ t. wss_unread t ≡ drop n due ++ messages_payload s.ws_stream)
          (leb (length s.read_buf) (s.read_pos + n))
          (λ all.
            ap (λ t. t ++ messages_payload s.ws_stream)
              (sym (later ∙ drop_all (s.read_pos + n) s.read_buf (ground (arith, all)))))
          (λ more. ap (λ t. t ++ messages_payload s.ws_stream) (sym later)))
      ∙ split_at n due (messages_payload s.ws_stream)

  poll_buffered_within : length (put_bytes (Wss.poll_buffered s room).1) ≤ room
  unfolding Wss.poll_buffered
  poll_buffered_within =
      omega (
        arith,
        length-take (min (length s.read_buf - s.read_pos) room) (drop s.read_pos s.read_buf),
      )

  pub wss-reads_next :
      put_bytes (Wss.poll_read s room).1 ++ wss_unread (Wss.poll_read s room).0 ≡ wss_unread s
  unfolding Wss.poll_read
  wss-reads_next =
      if_cases (λ (r : WssStream × PollRead). put_bytes r.1 ++ wss_unread r.0 ≡ wss_unread s)
        (ltb s.read_pos (length s.read_buf)) (λ more. poll_buffered-unread)
        (λ all.
          let empty = drop_all s.read_pos s.read_buf (ground (arith, all)) in
          poll_message-unread s.ws_stream empty refl
          ∙ ap (λ t. t ++ messages_payload s.ws_stream) (sym empty))

  pub wss-reads_within : length (put_bytes (Wss.poll_read s room).1) ≤ room
  unfolding Wss.poll_read
  wss-reads_within =
      if_both (λ (r : WssStream × PollRead). length (put_bytes r.1) ≤ room)
        (ltb s.read_pos (length s.read_buf)) poll_buffered_within (poll_message_within s.ws_stream)

abbrev pub wss : ByteStream
wss = record {
  State = WssStream;
  poll_read = Wss.poll_read;
  unread = wss_unread;
  reads_next = wss-reads_next;
  reads_within = wss-reads_within;
}
