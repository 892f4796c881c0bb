-- ===== src/ClientSession.antt =====
-- A session of the client: src/client/control_channel.rs and src/client/mod.rs.
pub mod Channel
pub mod World
pub mod Loop
pub mod Tokens
pub mod Phases
pub mod Receiving
pub mod Order
pub mod Steps
pub mod Progress
pub mod Deadline
pub mod Tests
