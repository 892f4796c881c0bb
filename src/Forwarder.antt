-- ===== src/Forwarder.antt =====
-- A forwarder of the client, a proxy on the client's side: src/client/forwarder.rs.
pub mod Targets
pub mod Blacklist
pub mod Cache
pub mod Exclusive
pub mod Owned
pub mod Talk
pub mod Socks
pub mod SocksRequest
pub mod SocksAuth
pub mod Text
pub mod Http
pub mod HttpReading
pub mod Copy
pub mod Direct
pub mod Handling
pub mod Balance
pub mod Rules
pub mod Retry
pub mod Listener
pub mod Tests
