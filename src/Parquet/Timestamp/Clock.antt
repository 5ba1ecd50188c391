-- ===== src/Parquet/Timestamp/Clock.antt =====
-- The date and the time of day of a timestamp.
use devel_mysql_plugin.Common.{
  ℕ, suc, ◌+◌, ◌-◌, ◌*◌, ◌≤◌, ◌<◌, ◌≡◌, refl, ap, subst, arith, ◌/◌, ◌%◌, ℤ, pos, negsuc, ◌+ℤ◌,
  ◌-ℤ◌, sub_ℕ, fdiv, fmod, tdiv, tmod, scale, word, int_laws,
}
use devel_mysql_plugin.Libc.Time.{gmtime_r}
use devel_mysql_plugin.Parquet.MysqlTime.{MysqlTime}
use devel_mysql_plugin.Parquet.Date.{u32, days_to_mysql_date}
use devel_mysql_plugin.Parquet.Date.Calendar.{Day, IsDay, calendar, days_in_month_range}
use devel_mysql_plugin.Parquet.Date.Agreement.{DaysFit, days_to_mysql_date-calendar, calendar-IsDay}
use devel_mysql_plugin.Parquet.Timestamp.{
  u64, TimeUnit, second, milli, micro, nano, other, split_timestamp, timestamp_to_mysql,
}
use devel_mysql_plugin.Parquet.Timestamp.Fraction.{per_second}

-- The whole seconds from 1970 to a timestamp, or from a timestamp to 1970: what is left of a second is
-- dropped.
abbrev pub secs_of : TimeUnit → ℤ → ℤ
secs_of unit (pos n) = pos (n / per_second unit)
secs_of unit (negsuc n) = sub_ℕ 0 (suc n / per_second unit)

-- The microseconds that are left of the second.
abbrev pub rest_of : TimeUnit → ℤ → ℤ
rest_of unit (pos n) = pos (n % per_second unit * 1000000 / per_second unit)
rest_of unit (negsuc n) = sub_ℕ 0 (suc n % per_second unit * 1000000 / per_second unit)

-- The day of a number of seconds.
abbrev pub day_of : TimeUnit → ℤ → ℤ
day_of unit ts_val = fdiv (secs_of unit ts_val) 86400

split_timestamp_parts :
    (unit : TimeUnit) (ts_val : ℤ)
    → split_timestamp unit ts_val ≡ (secs_of unit ts_val, rest_of unit ts_val)
unfolding split_timestamp tdiv tmod scale
split_timestamp_parts second (pos n) = ground arith
split_timestamp_parts milli (pos n) = ground arith
split_timestamp_parts micro (pos n) = ground arith
split_timestamp_parts nano (pos n) = ground arith
split_timestamp_parts other (pos n) = ground arith
split_timestamp_parts second (negsuc n) = ground arith
split_timestamp_parts milli (negsuc n) = ground arith
split_timestamp_parts micro (negsuc n) = ground arith
split_timestamp_parts nano (negsuc n) = ground arith
split_timestamp_parts other (negsuc n) = ground arith

-- The year, month and day are those of `d`, the time of day is `rest` seconds, and the fraction of the
-- second is `part` microseconds.
pub record Reads (t d : MysqlTime) (rest : ℕ) (part : ℤ) : Type 0 where
  pub year_is : t.year ≡ d.year
  pub month_is : t.month ≡ d.month
  pub day_is : t.day ≡ d.day
  pub clock_is : t.hour * 3600 + t.minute * 60 + t.second ≡ rest
  pub clock_in : (t.hour < 24) × (t.minute < 60) × (t.second < 60)
  pub part_is : t.second_part ≡ word u64 part

fmod-lt : (z : ℤ) → fmod z 86400 < 86400
unfolding fmod
fmod-lt (pos n) = omega arith
fmod-lt (negsuc n) = omega arith

back_1900 : (y : ℤ) → y -ℤ pos 1900 +ℤ pos 1900 ≡ y
back_1900 y = omega int_laws

word_small : (n : ℕ) → n < u32 → word u32 (pos n) ≡ n
unfolding word
word_small n h = omega arith

word_month : (n : ℕ) → 1 ≤ n → n ≤ 12 → word u32 (pos (n - 1) +ℤ pos 1) ≡ n
unfolding word ◌+ℤ◌
word_month n h k = ground arith

clock_words :
    (rest : ℕ)
    → rest < 86400
    → (word u32 (pos (rest / 3600)) * 3600
          + word u32 (pos (rest / 60 % 60)) * 60
          + word u32 (pos (rest % 60))
        ≡ rest)
      × (word u32 (pos (rest / 3600)) < 24)
      × (word u32 (pos (rest / 60 % 60)) < 60)
      × (word u32 (pos (rest % 60)) < 60)
unfolding word
clock_words rest h = omega arith

timestamp_to_mysql-split :
    (unit : TimeUnit) (ts_val : ℤ)
    → DaysFit (fdiv (split_timestamp unit ts_val).0 86400)
    → Reads
        (timestamp_to_mysql unit ts_val)
        (days_to_mysql_date (fdiv (split_timestamp unit ts_val).0 86400))
        (fmod (split_timestamp unit ts_val).0 86400)
        (split_timestamp unit ts_val).1
unfolding timestamp_to_mysql gmtime_r
timestamp_to_mysql-split unit ts_val h =
    rw (days_to_mysql_date-calendar (fdiv (split_timestamp unit ts_val).0 86400) h) (record {
      year_is = ap (word u32) (back_1900 day.year);
      month_is = word_month day.month valid.month_in.0 valid.month_in.1;
      day_is =
          word_small day.day (omega (arith, valid.day_in, days_in_month_range day.year day.month));
      clock_is = clock.0;
      part_is = refl;
      clock_in = (clock.1, clock.2, clock.3);
    })
  where
    day : Day
    day = calendar (fdiv (split_timestamp unit ts_val).0 86400)

    valid : IsDay day
    valid = calendar-IsDay (fdiv (split_timestamp unit ts_val).0 86400) h

    rest : ℕ
    rest = fmod ((split_timestamp unit ts_val).0) 86400

    clock :
        (word u32 (pos (rest / 3600)) * 3600
            + word u32 (pos (rest / 60 % 60)) * 60
            + word u32 (pos (rest % 60))
          ≡ rest)
        × (word u32 (pos (rest / 3600)) < 24)
        × (word u32 (pos (rest / 60 % 60)) < 60)
        × (word u32 (pos (rest % 60)) < 60)
    clock = clock_words rest (fmod-lt ((split_timestamp unit ts_val).0))

-- A timestamp of either sign, in any unit, is stored with the date that the DATE path stores for the
-- day of its whole seconds, with the time of day of these seconds, and with the microseconds that are
-- left, as a 64-bit word. The whole seconds, and the microseconds, are counted towards 1970: before
-- 1970, one that is no whole second is stored with the next second, and so with the next day in the
-- last second of a day. The day number leaves room for the calculation in int32_t.
pub timestamp_to_mysql-Reads :
    (unit : TimeUnit) (ts_val : ℤ)
    → DaysFit (day_of unit ts_val)
    → Reads
        (timestamp_to_mysql unit ts_val)
        (days_to_mysql_date (day_of unit ts_val))
        (fmod (secs_of unit ts_val) 86400)
        (rest_of unit ts_val)
timestamp_to_mysql-Reads unit ts_val =
    subst
      (λ parts.
        DaysFit (fdiv parts.0 86400)
        → Reads (timestamp_to_mysql unit ts_val) (days_to_mysql_date (fdiv parts.0 86400))
            (fmod parts.0 86400) parts.1)
      (split_timestamp_parts unit ts_val) (timestamp_to_mysql-split unit ts_val)
