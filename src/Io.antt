-- ===== src/Io.antt =====
-- src/io_util.rs: writing several buffers at once, and the buffer that grows.
pub mod Vectored
pub mod Delivery
pub mod Repetition
pub mod Buffer
pub mod Tests
