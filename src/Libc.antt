-- ===== src/Libc.antt =====
-- What the sources use of the C library.
pub mod Time
pub mod Strings
pub mod Files
