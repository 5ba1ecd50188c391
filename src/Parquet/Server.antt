-- ===== src/Parquet/Server.antt =====
-- What the engine takes from MariaDB and from Arrow: neither is part of the repository.
use devel_mysql_plugin.Common.{ℕ, Option, List, Bool}
use devel_mysql_plugin.Parquet.Arrow.{ArrowTable}
use devel_mysql_plugin.Parquet.Row.{TableShare}

-- The constants of `enum thr_lock_type` that the engine names, by their position in the enum.
pub record LockTypes : Type 0 where
  pub tl_ignore : ℕ
  pub tl_unlock : ℕ
  pub tl_read : ℕ
  pub tl_read_no_insert : ℕ
  pub tl_write_allow_write : ℕ
  pub tl_write_concurrent_insert : ℕ
  pub tl_write : ℕ

-- The members of `ha_statistics` that the engine sets.
pub record Statistics : Type 0 where
  pub records : ℕ
  pub auto_increment_value : ℕ

-- FN_REFLEN; the three calls that load a parquet file, which fail or give what the next one takes,
-- the first by the path and what the file of that name holds, if there is one;
-- `my_store_ptr` and `my_get_ptr`, by the bytes they write and read; the table; the lock types;
-- what the memory of a new handler holds in its lock data; and the statistics that a new
-- `ha_statistics` holds.
pub record Server : Type 1 where
  pub fn_reflen : ℕ
  pub File : Type 0
  pub Reader : Type 0
  pub open_readable : List ℕ → Option (List ℕ) → Option File
  pub open_file : File → Option Reader
  pub read_table : Reader → Option ArrowTable
  pub may_write : List ℕ → Bool
  pub my_store_ptr : ℕ → ℕ → List ℕ
  pub my_get_ptr : List ℕ → ℕ → ℕ
  pub table_share : TableShare
  pub locks : LockTypes
  pub unset_lock_type : ℕ
  pub ha_status_auto : ℕ
  pub new_statistics : Statistics
