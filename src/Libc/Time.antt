-- ===== src/Libc/Time.antt =====
-- `gmtime_r`: the broken-down UTC time of a number of seconds since 1970-01-01T00:00:00. POSIX counts
-- no leap seconds, so a day has 86400 seconds; the day is taken from the calendar. A year that does
-- not fit in an `int` is an error of `gmtime_r`, which is not modelled.
use devel_mysql_plugin.Common.{ℕ, ◌-◌, ◌/◌, ◌%◌, ℤ, pos, ◌-ℤ◌, fdiv, fmod}
use devel_mysql_plugin.Parquet.Date.Calendar.{calendar}

pub record Tm : Type 0 where
  pub tm_year : ℤ
  pub tm_mon : ℕ
  pub tm_mday : ℕ
  pub tm_hour : ℕ
  pub tm_min : ℕ
  pub tm_sec : ℕ

unfoldable pub gmtime_r : ℤ → Tm
gmtime_r t =
    let day = calendar (fdiv t 86400) in
    let rest = fmod t 86400 in
    record {
      tm_year = day.year -ℤ pos 1900;
      tm_mon = day.month - 1;
      tm_mday = day.day;
      tm_hour = rest / 3600;
      tm_min = rest / 60 % 60;
      tm_sec = rest % 60;
    }
