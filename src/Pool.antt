-- ===== src/Pool.antt =====
-- src/connection_pool.rs: reusable connections to local services, one pool for each address.
pub mod Address
pub mod Manager
pub mod Bounds
pub mod Freshness
pub mod Isolation
pub mod Tests
