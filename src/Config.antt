-- ===== src/Config.antt =====
-- src/config: the configuration of server and client, and its validation.
pub mod Types
pub mod Validator
pub mod Validity
pub mod Loops
pub mod Soundness
pub mod Tests
