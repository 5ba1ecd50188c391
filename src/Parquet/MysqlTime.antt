-- ===== src/Parquet/MysqlTime.antt =====
-- The fields of MariaDB's MYSQL_TIME that the engine writes.
use devel_mysql_plugin.Common.{ℕ}

-- `timestamp_none` stands for the value that `memset` leaves.
pub data TimestampType : Type 0 where
  timestamp_none timestamp_date timestamp_datetime : TimestampType

pub record MysqlTime : Type 0 where
  pub year : ℕ
  pub month : ℕ
  pub day : ℕ
  pub hour : ℕ
  pub minute : ℕ
  pub second : ℕ
  pub second_part : ℕ
  pub time_type : TimestampType

abbrev pub zeroed : MysqlTime
zeroed = record {
  year = 0;
  month = 0;
  day = 0;
  hour = 0;
  minute = 0;
  second = 0;
  second_part = 0;
  time_type = timestamp_none;
}
