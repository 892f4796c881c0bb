-- ===== src/Stats.antt =====
-- src/stats.rs: connection and byte counters of the published proxies.
pub mod Tracker
pub mod Manager
pub mod Counting
pub mod Tests
