-- ===== src/Server.antt =====
-- src/server: client sessions, the registry of published proxies, and the requests of visitors.
pub mod World
pub mod Binding
pub mod Connection
pub mod Submission
pub mod Session
pub mod Ownership
pub mod Sharing
pub mod Interleaving
pub mod Isolation
pub mod Admission
pub mod Listeners
pub mod Replies
pub mod Honesty
pub mod Access
pub mod Tests
