-- ===== src/Parquet/Date/Agreement.antt =====
-- The date helper agrees with the calendar.
use devel_mysql_plugin.Common.{
  ℕ, zero, suc, ◌+◌, ◌-◌, ◌^◌, ◌≡◌, refl, subst, sym, ap, ◌∙◌, arith, ℤ, pos, negsuc, ◌+ℤ◌, ◌-ℤ◌,
  scale, tdiv, IntRange, int_laws, word, signed, wrap_signed,
}
use devel_mysql_plugin.Parquet.MysqlTime.{MysqlTime, timestamp_date, zeroed}
use devel_mysql_plugin.Parquet.Date.{
  u32, era_of, doe_of, yoe_of, doy_of, m_of, d_of, civil_from_era, civil_from_days,
  days_to_mysql_date,
}
use devel_mysql_plugin.Parquet.Date.Calendar.{
  Day, IsDay, next_day, previous_day, epoch, calendar, previous_day-next_day,
}
use devel_mysql_plugin.Parquet.Date.Era.{yoe_of_bounds, doy_of_lem, march_bounds, march_february}
use devel_mysql_plugin.Parquet.Date.Split.{
  wrap_signed-Int32, Split, era_of-Split, is_leap-era, year_length,
}
use devel_mysql_plugin.Parquet.Date.Steps.{
  year_of, date_of, as_day, civil_from_era-eq, civil_step, days_in_month-eq,
}

-- The day numbers for which no signed operation of the code overflows.
abbrev pub DaysFit : ℤ → Type 0
DaysFit = IntRange (negsuc (2 ^ 31 - 1)) (pos (2 ^ 31 - 1 - 719468))

abbrev shifted : ℤ → ℤ
shifted days = days +ℤ pos 719468

days-Split :
    (days : ℤ) → DaysFit days → Split (shifted days) (era_of (shifted days)) (doe_of (shifted days))
days-Split days h = era_of-Split (shifted days) (omega int_laws) (omega int_laws)

civil_from_days-eq :
    (days : ℤ)
    → DaysFit days
    → as_day (civil_from_days days)
      ≡ date_of
          (era_of (shifted days))
          (yoe_of (doe_of (shifted days)))
          (doy_of (doe_of (shifted days)))
unfolding civil_from_days
civil_from_days-eq days h =
    let plain = wrap_signed-Int32 (shifted days) (omega int_laws) in
    rw plain (civil_from_era-eq (days-Split days h))

civil_from_days-next :
    (days : ℤ)
    → DaysFit days
    → DaysFit (days +ℤ pos 1)
    → as_day (civil_from_days (days +ℤ pos 1)) ≡ next_day (as_day (civil_from_days days))
civil_from_days-next days h k =
    let later : shifted (days +ℤ pos 1) ≡ shifted days +ℤ pos 1 = omega int_laws in
    rw (civil_from_days-eq days h, civil_from_days-eq (days +ℤ pos 1) k, later)
      (civil_step (days-Split days h) (rw later at (days-Split (days +ℤ pos 1) k)) (omega int_laws))

civil_from_days-epoch : as_day (civil_from_days (pos 0)) ≡ epoch
unfolding civil_from_days civil_from_era era_of doe_of yoe_of doy_of m_of d_of scale tdiv word
    signed wrap_signed ◌+ℤ◌ ◌-ℤ◌
civil_from_days-epoch = refl

civil_from_days-IsDay : (days : ℤ) → DaysFit days → IsDay (as_day (civil_from_days days))
civil_from_days-IsDay days h = rw (civil_from_days-eq days h) (
    ground (
      arith,
      days-Split days h,
      yoe_of_bounds doe,
      doy_of_lem doe,
      year_length (yoe_of doe),
      march_bounds (doy_of doe),
      march_february (doy_of doe),
      is_leap-era (era_of (shifted days)) (yoe_of doe + 1),
      days_in_month-eq (year_of (era_of (shifted days)) (yoe_of doe) (doy_of doe))
          (m_of (doy_of doe)),
    ))
  where
    doe : ℕ
    doe = doe_of (shifted days)

civil_from_days-previous :
    (days : ℤ)
    → DaysFit days
    → DaysFit (days +ℤ pos 1)
    → as_day (civil_from_days days) ≡ previous_day (as_day (civil_from_days (days +ℤ pos 1)))
civil_from_days-previous days h k =
    rw (civil_from_days-next days h k)
      (sym (previous_day-next_day (as_day (civil_from_days days)) (civil_from_days-IsDay days h)))

after-pos : (n : ℕ) → pos n +ℤ pos 1 ≡ pos (suc n)
after-pos n = omega int_laws

after-negsuc : (n : ℕ) → negsuc (suc n) +ℤ pos 1 ≡ negsuc n
after-negsuc n = omega int_laws

civil_from_days-calendar : (days : ℤ) → DaysFit days → as_day (civil_from_days days) ≡ calendar days
unfolding calendar ◌+ℤ◌
civil_from_days-calendar (pos zero) h = civil_from_days-epoch
civil_from_days-calendar (pos (suc n)) h =
    rw (after-pos n) at (civil_from_days-next (pos n) (omega arith) (omega int_laws))
    ∙ ap next_day (civil_from_days-calendar (pos n) (omega arith))
civil_from_days-calendar (negsuc zero) h =
    civil_from_days-previous (negsuc zero) h (omega int_laws)
    ∙ ap previous_day civil_from_days-epoch
civil_from_days-calendar (negsuc (suc n)) h =
    rw (after-negsuc n) at (civil_from_days-previous (negsuc (suc n)) h (omega int_laws))
    ∙ ap previous_day (civil_from_days-calendar (negsuc n) (omega arith))

-- The MYSQL_TIME of a day of the calendar.
abbrev pub mysql_date : Day → MysqlTime
mysql_date t = record zeroed {
  time_type = timestamp_date;
  year = word u32 t.year;
  month = t.month;
  day = t.day;
}

-- For every day number that leaves room for the sum `days + 719468` in an `int32_t`, the helper
-- returns the day that a walk along the Gregorian calendar reaches from 1970-01-01, forward or back
-- one day at a time; its year is reduced to an `unsigned int`, and the time fields are 0.
pub days_to_mysql_date-calendar :
    (days : ℤ) → DaysFit days → days_to_mysql_date days ≡ mysql_date (calendar days)
unfolding days_to_mysql_date
days_to_mysql_date-calendar days h = ap mysql_date (civil_from_days-calendar days h)

pub calendar-IsDay : (days : ℤ) → DaysFit days → IsDay (calendar days)
calendar-IsDay days h = subst IsDay (civil_from_days-calendar days h) (civil_from_days-IsDay days h)
