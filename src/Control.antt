-- ===== src/Control.antt =====
-- The control channel between client and server: src/control_protocol.rs and
-- src/server/control_channel.rs.
pub mod Framing
pub mod Method
pub mod Channel
pub mod Delivery
pub mod Tests
