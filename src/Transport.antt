-- ===== src/Transport.antt =====
-- The transports of src/transport and src/limited_reader.rs: the byte streams over HTTP/2 and WebSocket, how
-- a tunnel is set up over HTTP/2, and the reader that limits a request.
pub mod ByteStream
pub mod Http2
pub mod Wss
pub mod Streams
mod Sending
mod Ends
mod Window
pub mod Limited
pub mod Tunnel
mod Tests
