-- ===== src/Monitor.antt =====
-- The daemon plugin of Source/04_OS_logger/Mac/my_resource.cpp: a thread that measures the system and
-- the server in rounds.
pub mod Cpu
pub mod Memory
pub mod Disk
pub mod Database
pub mod Loop
pub mod Plugin
pub mod Variables
pub mod Concurrent
mod Examples
mod Runs
