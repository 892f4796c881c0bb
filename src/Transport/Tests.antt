-- ===== src/Transport/Tests.antt =====
-- The streams of src/transport and the reader of src/limited_reader.rs at concrete inputs.
use tls_tunnel.Prelude.{
  ℕ, ◌+◌, ◌≡◌, ◌↔◌, inl, err, none, refl, true, false, some, List, [], ◌∷◌, ◌++◌, Str, ok, arith,
  take,
}
use tls_tunnel.Transport.ByteStream.{PollRead, filled, read_pending, poll_reads}
use tls_tunnel.Transport.Http2
use tls_tunnel.Transport.Http2.{
  Http2Stream, Frame, chunk, stream_ended, available, no_capacity, Capacity,
}
use tls_tunnel.Transport.Wss
use tls_tunnel.Transport.Wss.{Message, binary, ping_pong, text, WssStream}
use tls_tunnel.Transport.Streams.{http2, wss, buffered, http2_unread, wss_unread}
use tls_tunnel.Transport.Sending.{
  chunks, http2_writes, wss_writes, unsent, http2_writes-relayed, wss_writes-relayed,
}
use tls_tunnel.Transport.Ends.{FrameEnds, http2_end_iff}
use tls_tunnel.Transport.Window.{poll_reads-released_first}
use tls_tunnel.Transport.Limited.{LimitedReader, ReadBuf, poll_times, poll_times-lost}
use tls_tunnel.Transport.Tunnel
use tls_tunnel.Transport.Tunnel.{
  Dialing, Arrival, Http2TransportServer, GetsOut, status_ok, connect-accept,
}

abbrev hello : Str
hello = b'h' ∷ b'e' ∷ b'l' ∷ b'l' ∷ b'o' ∷ []

abbrev grants : List Capacity
grants = available 2 true ∷ no_capacity ∷ available 9 true ∷ []

abbrev arriving : List Frame
arriving =
    chunk (b'h' ∷ b'e' ∷ []) ∷ Http2.not_yet ∷ chunk (b'l' ∷ b'l' ∷ b'o' ∷ []) ∷ stream_ended ∷ []

abbrev sizes : List ℕ
sizes = 1 ∷ 4 ∷ 4 ∷ 2 ∷ []

hello_relayed : (poll_reads http2 (Http2.new arriving) sizes).1 ≡ b'h' ∷ b'e' ∷ b'l' ∷ b'l' ∷ []
unfolding Http2.poll_read
hello_relayed = refl

hello_sent : chunks arriving ≡ (http2_writes unsent grants hello).0.frames
unfolding Http2.poll_write
hello_sent = refl

http2_writes-relayed_example :
    (poll_reads http2 (Http2.new arriving) sizes).1
      ++ (http2_unread (poll_reads http2 (Http2.new arriving) sizes).0
          ++ (http2_writes unsent grants hello).1)
    ≡ hello
http2_writes-relayed_example = http2_writes-relayed grants hello arriving sizes hello_sent

abbrev messages : List Message
messages = ping_pong ∷ binary hello ∷ text ∷ []

hello_taken : hello ∷ [] ≡ (wss_writes [] (Wss.ready true ∷ []) hello).0
unfolding Wss.poll_write
hello_taken = refl

wss_writes-relayed_example :
    (poll_reads wss (Wss.new messages) sizes).1
      ++ (wss_unread (poll_reads wss (Wss.new messages) sizes).0
          ++ (wss_writes [] (Wss.ready true ∷ []) hello).1)
    ≡ hello
wss_writes-relayed_example =
    wss_writes-relayed (Wss.ready true ∷ []) hello messages sizes hello_taken

-- A ping is no data, and the poll that finds it asks to be polled again.
ping_is_skipped : (Wss.poll_read (Wss.new messages) 4).1 ≡ read_pending true
unfolding Wss.poll_read
ping_is_skipped = refl

-- An empty binary message reads like the end of the stream.
empty_message_ends : (Wss.poll_read (Wss.new (binary [] ∷ binary hello ∷ [])) 4).1 ≡ filled []
unfolding Wss.poll_read
empty_message_ends = refl

abbrev empty_first : Http2Stream
empty_first = Http2.new (chunk [] ∷ chunk hello ∷ [])

http2_end_iff_example :
    ((Http2.poll_read empty_first 4).1 ≡ filled [])
    ↔ ((buffered empty_first.read_buf ≡ []) × FrameEnds empty_first.recv_stream)
http2_end_iff_example = http2_end_iff empty_first 4 (omega arith)

poll_reads-released_first_example :
    ((poll_reads http2 (Http2.new (chunk hello ∷ [])) (2 ∷ 2 ∷ 1 ∷ [])).1 ≡ take (2 + 3) hello)
    × ((poll_reads http2 (Http2.new (chunk hello ∷ [])) (2 ∷ 2 ∷ 1 ∷ [])).0.released ≡ 2)
poll_reads-released_first_example =
    poll_reads-released_first hello [] 2 (2 ∷ 1 ∷ []) (omega arith) (omega arith) (omega arith)

-- A reader of bytes in memory.
abbrev from_memory : Str → ℕ → Str × PollRead
from_memory [] room = ([], filled [])
from_memory (byte ∷ bytes) room = (bytes, filled (byte ∷ []))

abbrev limited : LimitedReader Str
limited = record { inner = hello; remaining = 10; limit = 10 }

abbrev empty_buf : ReadBuf
empty_buf = record { contents = []; capacity = 4 }

poll_times-lost_example :
    ((poll_times from_memory 3 limited empty_buf).1 ≡ empty_buf)
    × ((poll_times from_memory 3 limited empty_buf).0
        ≡ record { inner = b'l' ∷ b'o' ∷ []; remaining = 10; limit = 10 })
poll_times-lost_example = poll_times-lost from_memory 3 limited empty_buf (omega arith)

abbrev dialing : Dialing
dialing = record {
  tcp_connected = true;
  name_valid = true;
  tls_done = true;
  http2_done = true;
  request_built = true;
  sender_ready = true;
  request_sent = true;
  response = some status_ok;
}

abbrev arrival : Arrival
arrival = record {
  tcp_accepted = true;
  tls_done = false;
  http2_done = true;
  first = Tunnel.request true;
  response_sent = true;
}

-- A server behind a proxy does no TLS of its own.
abbrev behind_proxy : Http2TransportServer
behind_proxy = record { has_acceptor = false }

server_answers : dialing.response ≡ (Tunnel.accept behind_proxy arrival).0
unfolding Tunnel.accept
server_answers = refl

connect-accept_example : (Tunnel.connect dialing ≡ ok tt) ↔ (
    GetsOut dialing
    × ((Tunnel.accept behind_proxy arrival).1 ≡ ok tt)
    × (dialing.response ≡ (Tunnel.accept behind_proxy arrival).0))
connect-accept_example = connect-accept dialing behind_proxy arrival (inl server_answers)

-- When the response is lost the server alone has the tunnel.
abbrev lost : Dialing
lost = record dialing { response = none }

server_alone : (Tunnel.accept behind_proxy arrival).1 ≡ ok tt
unfolding Tunnel.accept
server_alone = refl

client_without : Tunnel.connect lost ≡ err Tunnel.no_response
unfolding Tunnel.connect
client_without = refl
