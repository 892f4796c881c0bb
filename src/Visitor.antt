-- ===== src/Visitor.antt =====
-- The request of a visitor on a new stream: src/client/visitor.rs, src/client/config.rs and
-- src/server/visitor.rs.
pub mod Wire
pub mod Address
pub mod Handler
pub mod Client
pub mod Utf8
pub mod Transfer
pub mod Forwarding
pub mod Tests
