-- ===== src/Parquet.antt =====
-- The storage engine READ_PARQUET: Source/05_ReadParquet/Linux/ha_parquet.cc and ha_parquet.h.
pub mod HaError
pub mod MysqlTime
pub mod Date
pub mod Timestamp
pub mod HalfFloat
pub mod Arrow
pub mod Row
pub mod Sidecar
pub mod Server
pub mod Handler
pub mod Mac
pub mod Registration
pub mod Sessions
mod Examples
mod Runs
mod Replays
