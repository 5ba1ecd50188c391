-- ===== src/Parquet/Date/Calendar.antt =====
-- The Gregorian calendar, walked one day at a time from 1970-01-01: what the date helper is to
-- compute. Nothing here is taken from the code.
use devel_mysql_plugin.Common.{
  refl, int_laws, ℕ, zero, suc, ◌+◌, ◌-◌, ◌%◌, ◌≤◌, ◌≡◌, ℤ, pos, negsuc, pos_part, neg_part, ◌+ℤ◌,
  ◌-ℤ◌, ltb, ◌==◌, Bool, not, ◌||◌, ◌&&◌, if◌then◌else◌, arith,
}

pub record Day : Type 0 where
  pub year : ℤ
  pub month : ℕ
  pub day : ℕ

abbrev pub divides : ℕ → ℤ → Bool
divides k y = (pos_part y + neg_part y) % k == 0

unfoldable pub is_leap : ℤ → Bool
is_leap y = divides 4 y && (not (divides 100 y) || divides 400 y)

unfoldable pub days_in_month : ℤ → ℕ → ℕ
unfolding is_leap
days_in_month y m =
    if (m == 4) || (m == 6) || (m == 9) || (m == 11)
    then 30
    else if not (m == 2)
    then 31
    else if is_leap y
    then 29
    else 28

unfoldable pub next_day : Day → Day
next_day t =
    if ltb t.day (days_in_month t.year t.month)
    then record t { day = t.day + 1 }
    else if ltb t.month 12
    then record t { month = t.month + 1; day = 1 }
    else record { year = t.year +ℤ pos 1; month = 1; day = 1 }

unfoldable pub previous_day : Day → Day
previous_day t =
    if ltb 1 t.day
    then record t { day = t.day - 1 }
    else if ltb 1 t.month
    then record t { month = t.month - 1; day = days_in_month t.year (t.month - 1) }
    else record { year = t.year -ℤ pos 1; month = 12; day = 31 }

abbrev pub epoch : Day
epoch = record { year = pos 1970; month = 1; day = 1 }

walk : (Day → Day) → ℕ → Day
walk step zero = epoch
walk step (suc n) = step (walk step n)

-- The day that lies `days` after the epoch.
unfoldable pub calendar : ℤ → Day
unfolding walk next_day previous_day
calendar (pos n) = walk next_day n
calendar (negsuc n) = walk previous_day (suc n)

-- A date of the calendar.
pub record IsDay (t : Day) : Type 0 where
  pub month_in : (1 ≤ t.month) × (t.month ≤ 12)
  pub day_in : (1 ≤ t.day) × (t.day ≤ days_in_month t.year t.month)

pub days_in_month_range : (y : ℤ) (m : ℕ) → (28 ≤ days_in_month y m) × (days_in_month y m ≤ 31)
unfolding days_in_month
days_in_month_range y m = ground arith

pub december : (y : ℤ) → days_in_month y 12 ≡ 31
unfolding days_in_month
december y = refl

next_year-back : (y : ℤ) → y +ℤ pos 1 -ℤ pos 1 ≡ y
next_year-back y = omega int_laws

pub previous_day-next_day : (t : Day) → IsDay t → previous_day (next_day t) ≡ t
unfolding previous_day next_day
previous_day-next_day t v =
    ground (arith, days_in_month_range t.year t.month, december t.year, next_year-back t.year)

pub next_day-IsDay : (t : Day) → IsDay t → IsDay (next_day t)
unfolding next_day
next_day-IsDay t v =
    ground
      (arith, days_in_month_range t.year (t.month + 1), days_in_month_range (t.year +ℤ pos 1) 1)
