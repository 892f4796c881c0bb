-- ===== src/Routing.antt =====
-- src/client/geoip.rs: whether a forwarder connects to a target itself or through the server.
pub mod Domain
pub mod Router
pub mod Decision
pub mod Tests
