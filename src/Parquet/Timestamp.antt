-- ===== src/Parquet/Timestamp.antt =====
-- The cases DATE64 and TIMESTAMP of `ha_parquet::fill_row` in
-- Source/05_ReadParquet/Linux/ha_parquet.cc, up to the MYSQL_TIME that is stored. An `int64_t` that
-- Arrow delivers is an integer; the conversions that narrow it wrap.
pub mod Fraction
pub mod Clock
use devel_mysql_plugin.Common.{ℕ, ◌+◌, ◌^◌, ℤ, pos, ◌+ℤ◌, scale, tdiv, tmod, word, wrap_signed}
use devel_mysql_plugin.Libc.Time.{Tm, gmtime_r}
use devel_mysql_plugin.Parquet.MysqlTime.{MysqlTime, timestamp_datetime, zeroed}
use devel_mysql_plugin.Parquet.Date.{u32, days_to_mysql_date}

abbrev pub u64 : ℕ
u64 = 2 ^ 64

-- `static_cast<int32_t>(ms / 86400000LL)`.
unfoldable pub date64_days : ℤ → ℤ
unfolding tdiv wrap_signed
date64_days ms = wrap_signed u32 (tdiv ms 86400000)

unfoldable pub date64_to_mysql : ℤ → MysqlTime
date64_to_mysql ms = days_to_mysql_date (date64_days ms)

-- arrow::TimeUnit; `other` stands for the `default` of the switch.
pub data TimeUnit : Type 0 where
  second milli micro nano other : TimeUnit

-- `secs` and `usecs`.
unfoldable pub split_timestamp : TimeUnit → ℤ → ℤ × ℤ
unfolding tdiv tmod scale
split_timestamp second ts_val = (ts_val, pos 0)
split_timestamp milli ts_val = (tdiv ts_val 1000, scale (tmod ts_val 1000) 1000)
split_timestamp micro ts_val = (tdiv ts_val 1000000, tmod ts_val 1000000)
split_timestamp nano ts_val = (tdiv ts_val 1000000000, tdiv (tmod ts_val 1000000000) 1000)
split_timestamp other ts_val = (ts_val, pos 0)

unfoldable pub timestamp_to_mysql : TimeUnit → ℤ → MysqlTime
timestamp_to_mysql unit ts_val =
    let (secs, usecs) = split_timestamp unit ts_val in
    let tm_buf = gmtime_r secs in
    record zeroed {
      time_type = timestamp_datetime;
      second_part = word u64 usecs;
      year = word u32 (tm_buf.tm_year +ℤ pos 1900);
      month = word u32 (pos tm_buf.tm_mon +ℤ pos 1);
      day = word u32 (pos tm_buf.tm_mday);
      hour = word u32 (pos tm_buf.tm_hour);
      minute = word u32 (pos tm_buf.tm_min);
      second = word u32 (pos tm_buf.tm_sec);
    }
