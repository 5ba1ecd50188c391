-- ===== src/Parquet/HaError.antt =====
-- The results of the handler's operations: 0 and MariaDB's HA_ERR_ codes that the engine returns.
pub data HaError : Type 0 where
  success ha_err_crashed_on_usage ha_err_out_of_mem ha_err_no_such_table ha_err_end_of_file
        ha_err_wrong_command :
      HaError
