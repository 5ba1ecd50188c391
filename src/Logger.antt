-- ===== src/Logger.antt =====
-- The daemon plugin of Source/04_OS_logger/Linux/os_logger.cpp: its functions, and the server and the
-- thread as one system whose steps interleave.
pub mod Ram
pub mod System
pub mod Invariant
pub mod Stop
pub mod Rate
mod Examples
