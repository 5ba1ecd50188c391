-- ===== src/Parquet/Timestamp/Fraction.antt =====
-- What the split of a timestamp keeps, and where it goes wrong.
use devel_mysql_plugin.Common.{
  ℕ, suc, ◌+◌, ◌-◌, ◌*◌, ◌/◌, ◌%◌, ◌<◌, ◌≡◌, ◌≢◌, ◌↔◌, ◌⊎◌, refl, arith, ℤ, pos, negsuc, neg_part,
  ◌≤ℤ◌, fdiv, word,
}
use devel_mysql_plugin.Parquet.Date.Split.{Int32}
use devel_mysql_plugin.Parquet.Timestamp.{
  u64, date64_days, TimeUnit, second, milli, micro, nano, other, split_timestamp,
  timestamp_to_mysql,
}

-- The units that a second has.
abbrev pub per_second : TimeUnit → ℕ
per_second second = 1
per_second milli = 1000
per_second micro = 1000000
per_second nano = 1000000000
per_second other = 1

-- The microseconds in `n` units, rounded down.
abbrev pub to_micros : TimeUnit → ℕ → ℕ
to_micros unit n = n * 1000000 / per_second unit

-- For a timestamp from 1970 on, `secs` and `usecs` are its microseconds split at the second: nothing
-- is lost but nanoseconds below a microsecond.
pub split_timestamp_exact :
    (unit : TimeUnit) (n : ℕ)
    → (s : ℕ) × (us : ℕ) × (split_timestamp unit (pos n) ≡ (pos s, pos us))
      × (us < 1000000)
      × (s * 1000000 + us ≡ to_micros unit n)
unfolding split_timestamp
split_timestamp_exact second n = (n, 0, refl, omega arith, omega arith)
split_timestamp_exact milli n = (n / 1000, n % 1000 * 1000, refl, omega arith, omega arith)
split_timestamp_exact micro n = (n / 1000000, n % 1000000, refl, omega arith, omega arith)
split_timestamp_exact nano n =
    (n / 1000000000, n % 1000000000 / 1000, refl, omega arith, omega arith)
split_timestamp_exact other n = (n, 0, refl, omega arith, omega arith)

-- Before 1970, a timestamp in milliseconds or microseconds that is no whole second has a
-- `second_part` far above the million that a fraction of a second can have.
pub second_part_wraps :
    (unit : TimeUnit) (n : ℕ)
    → (unit ≡ milli) ⊎ (unit ≡ micro)
    → suc n % per_second unit ≢ 0
    → u64 - 1000000 < (timestamp_to_mysql unit (negsuc n)).second_part
unfolding timestamp_to_mysql split_timestamp word
second_part_wraps milli n u h = ground arith
second_part_wraps micro n u h = ground arith
second_part_wraps second n u h = absurd (ground arith)
second_part_wraps nano n u h = absurd (ground arith)
second_part_wraps other n u h = absurd (ground arith)

-- The day that DATE64 milliseconds fall on is found exactly when they are not before 1970 or are
-- whole days, as long as the day number is an `int32_t`.
pub date64_days_iff :
    (ms : ℤ)
    → Int32 (fdiv ms 86400000)
    → (date64_days ms ≡ fdiv ms 86400000) ↔ ((pos 0 ≤ℤ ms) ⊎ (neg_part ms % 86400000 ≡ 0))
unfolding date64_days fdiv
date64_days_iff (pos n) h = ground arith
date64_days_iff (negsuc n) h = ground arith
