-- ===== src/Parquet/Date/Era.antt =====
-- The arithmetic within an era of 146097 days: no 32-bit operation wraps, the year of the era is the
-- right one, and the month and day are those of a year that begins in March.
use devel_mysql_plugin.Common.{
  ℕ, ◌+◌, ◌-◌, ◌*◌, ◌/◌, ◌≤◌, ◌<◌, ◌≡◌, ◌≢◌, ◌⊎◌, refl, arith, Bool, true, not, ◌&&◌, ltb, ◌==◌,
  if◌then◌else◌, each_below, each_below_lem,
}
use devel_mysql_plugin.Parquet.Date.{add32, sub32, mul32, yoe_of, doy_of, d_of, m_of}

-- The days before year `y` of an era.
abbrev pub year_start : ℕ → ℕ
year_start y = 365 * y + y / 4 - y / 100

-- The last year of an era has a leap day that `year_start 400` leaves out.
abbrev pub year_end : ℕ → ℕ
year_end y = if y == 399 then 146097 else year_start (y + 1)

-- `yoe_of` is a year that the day lies in.
pub yoe_of_bounds :
    (doe : ℕ)
    → doe < 146097
    → (year_start (yoe_of doe) ≤ doe) × (doe < year_end (yoe_of doe)) × (yoe_of doe < 400)
unfolding yoe_of add32 sub32
yoe_of_bounds doe h = ground arith

-- There is one such year.
year_unique :
    (y z doe : ℕ)
    → y < 400
    → z < 400
    → (year_start y ≤ doe) × (doe < year_end y)
    → (year_start z ≤ doe) × (doe < year_end z)
    → y ≡ z
year_unique y z doe hy hz p q = ground arith

pub doy_of_lem : (doe : ℕ) → doe < 146097 → doy_of doe + year_start (yoe_of doe) ≡ doe
unfolding doy_of add32 sub32 mul32
doy_of_lem doe h = omega (arith, yoe_of_bounds doe h)

-- The next day lies in the same year, or begins the next one.
pub doe_step :
    (doe : ℕ)
    → doe < 146096
    → ((yoe_of (doe + 1) ≡ yoe_of doe) × (doy_of (doe + 1) ≡ doy_of doe + 1))
      ⊎ ((yoe_of (doe + 1) ≡ yoe_of doe + 1)
          × (doy_of (doe + 1) ≡ 0)
          × (doe + 1 ≡ year_end (yoe_of doe)))
doe_step doe h = ground (
  arith,
  yoe_of_bounds doe,
  yoe_of_bounds (doe + 1),
  doy_of_lem doe,
  doy_of_lem (doe + 1),
  year_unique (yoe_of doe) (yoe_of (doe + 1)) (doe + 1),
  year_unique (yoe_of doe + 1) (yoe_of (doe + 1)) (doe + 1),
)

-- The months of a year that begins in March, February with 29 days.
abbrev pub month_length : ℕ → ℕ
month_length m =
    if m == 2
    then 29
    else if m == 4
    then 30
    else if m == 6
    then 30
    else if m == 9
    then 30
    else if m == 11
    then 30
    else 31

abbrev march_step_ok : ℕ → Bool
march_step_ok doy =
    if ltb (d_of doy) (month_length (m_of doy))
    then (m_of (doy + 1) == m_of doy) && (d_of (doy + 1) == d_of doy + 1)
    else not (m_of doy == 2)
      && (m_of (doy + 1) == (if m_of doy == 12 then 1 else m_of doy + 1))
      && (d_of (doy + 1) == 1)

march_step_table : each_below march_step_ok 365 ≡ true
unfolding each_below d_of m_of
march_step_table = refl

march_step_checked : (doy : ℕ) → doy < 365 → march_step_ok doy ≡ true
march_step_checked doy h = each_below_lem march_step_ok 365 doy h march_step_table

pub march_step :
    (doy : ℕ)
    → doy < 365
    → ((d_of doy < month_length (m_of doy))
        × (m_of (doy + 1) ≡ m_of doy)
        × (d_of (doy + 1) ≡ d_of doy + 1))
      ⊎ ((month_length (m_of doy) ≤ d_of doy)
          × (m_of doy ≢ 2)
          × (m_of (doy + 1) ≡ (if m_of doy == 12 then 1 else m_of doy + 1))
          × (d_of (doy + 1) ≡ 1))
march_step doy h = ground (arith, march_step_checked doy h)

-- Every day has a month and a day of that month; February ends the year.
abbrev march_ok : ℕ → Bool
march_ok doy =
    ltb 0 (m_of doy)
    && ltb (m_of doy) 13
    && ltb 0 (d_of doy)
    && ltb (d_of doy) (month_length (m_of doy) + 1)
    && (if ltb doy 337 then not (m_of doy == 2) else (m_of doy == 2) && (d_of doy + 336 == doy))

march_table : each_below march_ok 366 ≡ true
unfolding each_below d_of m_of
march_table = refl

march_checked : (doy : ℕ) → doy < 366 → march_ok doy ≡ true
march_checked doy h = each_below_lem march_ok 366 doy h march_table

pub march_bounds :
    (doy : ℕ)
    → doy < 366
    → (1 ≤ m_of doy) × (m_of doy ≤ 12) × (1 ≤ d_of doy) × (d_of doy ≤ month_length (m_of doy))
march_bounds doy h = ground (arith, march_checked doy h)

pub march_february :
    (doy : ℕ)
    → doy < 366
    → ((doy < 337) × (m_of doy ≢ 2)) ⊎ ((337 ≤ doy) × (m_of doy ≡ 2) × (d_of doy + 336 ≡ doy))
march_february doy h = ground (arith, march_checked doy h)
