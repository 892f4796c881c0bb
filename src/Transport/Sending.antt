-- ===== src/Transport/Sending.antt =====
-- From the writer at one end of a tunnel to the reader at the other: src/transport/http2.rs and
-- src/transport/wss.rs.
use tls_tunnel.Prelude.{
  ℕ, ◌≡◌, refl, ap, sym, ◌∙◌, true, false, List, [], ◌∷◌, ◌++◌, Str, length, take, drop, min, arith,
  take-append-drop, append_assoc, append_nil, drop_all,
}
use tls_tunnel.Transport.ByteStream.{
  PollWrite, written, write_failed, write_pending, poll_reads, poll_reads-unread,
}
use tls_tunnel.Transport.Http2
use tls_tunnel.Transport.Http2.{Frame, chunk, frame_error, stream_ended, SendStream, Capacity}
use tls_tunnel.Transport.Wss
use tls_tunnel.Transport.Wss.{
  Message, binary, close, ping_pong, text, message_error, messages_ended, Sink,
}
use tls_tunnel.Transport.Streams.{
  http2, wss, frames_payload, messages_payload, http2_unread, wss_unread,
}

-- What a caller writes next: the bytes behind those that were taken, or the same again.
abbrev pub left_to_write : PollWrite → Str → Str
left_to_write (written n) buf = drop n buf
left_to_write write_failed buf = buf
left_to_write write_pending buf = buf

abbrev pub http2_writes : SendStream → List Capacity → Str → SendStream × Str
http2_writes s [] buf = (s, buf)
http2_writes s (c ∷ capacities) buf =
    let next = Http2.poll_write s c buf in http2_writes next.0 capacities (left_to_write next.1 buf)

abbrev pub wss_writes : List Str → List Sink → Str → List Str × Str
wss_writes messages [] buf = (messages, buf)
wss_writes messages (k ∷ sinks) buf =
    let next = Wss.poll_write messages k buf in wss_writes next.0 sinks (left_to_write next.1 buf)

abbrev concat : List Str → Str
concat [] = []
concat (bytes ∷ rest) = bytes ++ concat rest

-- The frames and the messages that come with bytes.
abbrev pub chunks : List Frame → List Str
chunks [] = []
chunks (chunk bytes ∷ frames) = bytes ∷ chunks frames
chunks (frame_error ∷ frames) = chunks frames
chunks (stream_ended ∷ frames) = chunks frames
chunks (Http2.not_yet ∷ frames) = chunks frames

abbrev pub binaries : List Message → List Str
binaries [] = []
binaries (binary bytes ∷ messages) = bytes ∷ binaries messages
binaries (close ∷ messages) = binaries messages
binaries (ping_pong ∷ messages) = binaries messages
binaries (text ∷ messages) = binaries messages
binaries (message_error ∷ messages) = binaries messages
binaries (messages_ended ∷ messages) = binaries messages
binaries (Wss.not_yet ∷ messages) = binaries messages

concat-chunks : (frames : List Frame) → frames_payload frames ≡ concat (chunks frames)
concat-chunks [] = refl
concat-chunks (chunk bytes ∷ frames) = ap (λ t. bytes ++ t) (concat-chunks frames)
concat-chunks (frame_error ∷ frames) = concat-chunks frames
concat-chunks (stream_ended ∷ frames) = concat-chunks frames
concat-chunks (Http2.not_yet ∷ frames) = concat-chunks frames

concat-binaries : (messages : List Message) → messages_payload messages ≡ concat (binaries messages)
concat-binaries [] = refl
concat-binaries (binary bytes ∷ messages) = ap (λ t. bytes ++ t) (concat-binaries messages)
concat-binaries (close ∷ messages) = concat-binaries messages
concat-binaries (ping_pong ∷ messages) = concat-binaries messages
concat-binaries (text ∷ messages) = concat-binaries messages
concat-binaries (message_error ∷ messages) = concat-binaries messages
concat-binaries (messages_ended ∷ messages) = concat-binaries messages
concat-binaries (Wss.not_yet ∷ messages) = concat-binaries messages

concat-snoc :
    (sent : List Str) (bytes rest : Str)
    → concat (sent ++ bytes ∷ []) ++ rest ≡ concat sent ++ (bytes ++ rest)
concat-snoc [] bytes rest = ap (λ t. t ++ rest) (append_nil bytes)
concat-snoc (x ∷ sent) bytes rest =
    append_assoc x (concat (sent ++ bytes ∷ [])) rest
    ∙ ap (λ t. x ++ t) (concat-snoc sent bytes rest)
    ∙ sym (append_assoc x (concat sent) (bytes ++ rest))

concat-http2_writes :
    (s : SendStream) (capacities : List Capacity) (buf : Str)
    → concat (http2_writes s capacities buf).0.frames ++ (http2_writes s capacities buf).1
      ≡ concat s.frames ++ buf
unfolding Http2.poll_write
concat-http2_writes s [] buf = refl
concat-http2_writes s (Http2.available n true ∷ capacities) buf =
    let k = min n (length buf) in
    concat-http2_writes (record s { frames = s.frames ++ take k buf ∷ [] }) capacities (drop k buf)
    ∙ concat-snoc s.frames (take k buf) (drop k buf)
    ∙ ap (λ t. concat s.frames ++ t) (take-append-drop k buf)
concat-http2_writes s (Http2.available n false ∷ capacities) buf =
    concat-http2_writes s capacities buf
concat-http2_writes s (Http2.capacity_error ∷ capacities) buf = concat-http2_writes s capacities buf
concat-http2_writes s (Http2.closed ∷ capacities) buf = concat-http2_writes s capacities buf
concat-http2_writes s (Http2.no_capacity ∷ capacities) buf = concat-http2_writes s capacities buf

concat-wss_writes :
    (messages : List Str) (sinks : List Sink) (buf : Str)
    → concat (wss_writes messages sinks buf).0 ++ (wss_writes messages sinks buf).1
      ≡ concat messages ++ buf
unfolding Wss.poll_write
concat-wss_writes messages [] buf = refl
concat-wss_writes messages (Wss.ready true ∷ sinks) buf =
    concat-wss_writes (messages ++ buf ∷ []) sinks (drop (length buf) buf)
    ∙ concat-snoc messages buf (drop (length buf) buf)
    ∙ ap (λ t. concat messages ++ (buf ++ t)) (drop_all (length buf) buf (omega arith))
    ∙ ap (λ t. concat messages ++ t) (append_nil buf)
concat-wss_writes messages (Wss.ready false ∷ sinks) buf = concat-wss_writes messages sinks buf
concat-wss_writes messages (Wss.sink_error ∷ sinks) buf = concat-wss_writes messages sinks buf
concat-wss_writes messages (Wss.not_ready ∷ sinks) buf = concat-wss_writes messages sinks buf

abbrev pub unsent : SendStream
unsent = record { frames = []; ended = false }

-- A buffer is written to an HTTP/2 stream by any number of polls, whatever capacity each is given and whichever
-- fail, each going on with what is left; the other end gets the frames sent, in order, with any delays and
-- errors between them, and is polled with buffers of any sizes. Then the bytes that it has read, those that it
-- has still to read and those still to be sent are the buffer: none is lost, repeated or moved.
pub http2_writes-relayed :
    (capacities : List Capacity) (buf : Str) (frames : List Frame) (rooms : List ℕ)
    → chunks frames ≡ (http2_writes unsent capacities buf).0.frames
    → (poll_reads http2 (Http2.new frames) rooms).1
        ++ (http2_unread (poll_reads http2 (Http2.new frames) rooms).0
            ++ (http2_writes unsent capacities buf).1)
      ≡ buf
http2_writes-relayed capacities buf frames rooms e =
    let s = poll_reads http2 (Http2.new frames) rooms in
    let left = (http2_writes unsent capacities buf).1 in
    sym (append_assoc s.1 (http2_unread s.0) left)
    ∙ ap (λ t. t ++ left)
        (poll_reads-unread http2 (Http2.new frames) rooms ∙ concat-chunks frames ∙ ap concat e)
    ∙ concat-http2_writes unsent capacities buf

-- The same of a WebSocket stream, where control and text messages come between the binary ones.
pub wss_writes-relayed :
    (sinks : List Sink) (buf : Str) (messages : List Message) (rooms : List ℕ)
    → binaries messages ≡ (wss_writes [] sinks buf).0
    → (poll_reads wss (Wss.new messages) rooms).1
        ++ (wss_unread (poll_reads wss (Wss.new messages) rooms).0 ++ (wss_writes [] sinks buf).1)
      ≡ buf
wss_writes-relayed sinks buf messages rooms e =
    let s = poll_reads wss (Wss.new messages) rooms in
    let left = (wss_writes [] sinks buf).1 in
    sym (append_assoc s.1 (wss_unread s.0) left)
    ∙ ap (λ t. t ++ left)
        (poll_reads-unread wss (Wss.new messages) rooms ∙ concat-binaries messages ∙ ap concat e)
    ∙ concat-wss_writes [] sinks buf
