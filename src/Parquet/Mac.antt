-- ===== src/Parquet/Mac.antt =====
-- Source/05_ReadParquet/Mac/ha_parquet.cc and ha_parquet.h, the engine for MySQL: a copy of the engine
-- for MariaDB that is kept beside it. It is translated on its own, its loops by their indices. What the
-- server and Arrow have, and the names of the results and of the calls on a Field, are those of the
-- other version. `ReadTable` is another function of Arrow here: it gives a status, and writes the
-- table through a pointer that is null before.
pub mod Values
pub mod Sidecar
pub mod Row
pub mod Engine
pub mod Calls
pub mod Operations
pub mod Agreement
pub mod Sessions
