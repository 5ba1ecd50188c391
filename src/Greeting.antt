-- ===== src/Greeting.antt =====
-- The greeting functions of Source/01_HelloWorld and Source/02_HelloWorld_Args.
pub mod Mac
pub mod Linux
pub mod Buffers
pub mod Heap
pub mod Constant
mod Examples
