-- ===== src/Client.antt =====
-- The client's end of a published proxy: src/client/connection.rs and src/client/stream.rs.
pub mod Local
pub mod Stream
pub mod Opening
pub mod Reaching
pub mod Accounting
pub mod Tracker
pub mod Tests
