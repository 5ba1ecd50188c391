-- ===== src/Parquet/Date.antt =====
-- `days_to_mysql_date` of Source/05_ReadParquet/Linux/ha_parquet.cc (the copy under Mac is the same
-- text). An `int32_t` is an integer that each operation wraps, a `uint32_t` is a number below 2 ^ 32.
pub mod Calendar
pub mod Era
pub mod Split
pub mod Steps
pub mod Agreement
use devel_mysql_plugin.Common.{
  ℕ, ◌+◌, ◌-◌, ◌*◌, ◌/◌, ◌%◌, ◌^◌, ◌≡◌, refl, ℤ, pos, negsuc, ◌+ℤ◌, ◌-ℤ◌, scale, tdiv, ltb_ℤ, ltb,
  leb, word, signed, wrap_signed, if◌then◌else◌,
}
use devel_mysql_plugin.Parquet.MysqlTime.{MysqlTime, timestamp_date, zeroed}

-- The number of values of a 32-bit word.
abbrev pub u32 : ℕ
u32 = 2 ^ 32

-- uint32_t a + b, a - b, a * b.
unfoldable pub add32 : ℕ → ℕ → ℕ
add32 a b = (a + b) % u32

unfoldable pub sub32 : ℕ → ℕ → ℕ
sub32 a b = (a + u32 - b) % u32

unfoldable pub mul32 : ℕ → ℕ → ℕ
mul32 a b = a * b % u32

-- `era`, from `z`.
unfoldable pub era_of : ℤ → ℤ
unfolding tdiv wrap_signed ◌-ℤ◌
era_of z = tdiv (if ltb_ℤ z (pos 0) then wrap_signed u32 (z -ℤ pos 146096) else z) 146097

-- `doe`, the day of the era.
unfoldable pub doe_of : ℤ → ℕ
unfolding era_of word wrap_signed scale ◌-ℤ◌
doe_of z = word u32 (z -ℤ wrap_signed u32 (scale (era_of z) 146097))

-- `yoe`, the year of the era.
unfoldable pub yoe_of : ℕ → ℕ
unfolding add32 sub32
yoe_of doe = sub32 (add32 (sub32 doe (doe / 1460)) (doe / 36524)) (doe / 146096) / 365

-- `doy`, the day of a year that begins in March.
unfoldable pub doy_of : ℕ → ℕ
unfolding yoe_of add32 sub32 mul32
doy_of doe = let yoe = yoe_of doe in sub32 doe (sub32 (add32 (mul32 365 yoe) (yoe / 4)) (yoe / 100))

-- `mp`, the month of that year, and `d` and `m` from it.
unfoldable pub mp_of : ℕ → ℕ
unfolding add32 mul32
mp_of doy = add32 (mul32 5 doy) 2 / 153

unfoldable pub d_of : ℕ → ℕ
unfolding mp_of add32 sub32 mul32
d_of doy = add32 (sub32 doy (add32 (mul32 153 (mp_of doy)) 2 / 5)) 1

unfoldable pub m_of : ℕ → ℕ
unfolding mp_of add32 sub32
m_of doy = let mp = mp_of doy in if ltb mp 10 then add32 mp 3 else sub32 mp 9

-- The locals `y`, `m`, `d` after the last assignment to `y`.
pub record Civil : Type 0 where
  pub y : ℤ
  pub m : ℕ
  pub d : ℕ

unfoldable pub civil_from_era : ℤ → ℕ → Civil
civil_from_era era doe =
    let y = wrap_signed u32 (signed u32 (yoe_of doe) +ℤ scale era 400) in
    let m = m_of (doy_of doe) in
    record { y = if leb m 2 then wrap_signed u32 (y +ℤ pos 1) else y; m = m; d = d_of (doy_of doe) }

-- The locals for a day number: `z` is `days + 719468`.
unfoldable pub civil_from_days : ℤ → Civil
civil_from_days days =
    let z = wrap_signed u32 (days +ℤ pos 719468) in civil_from_era (era_of z) (doe_of z)

unfoldable pub days_to_mysql_date : ℤ → MysqlTime
days_to_mysql_date days =
    let c = civil_from_days days in
    record zeroed { time_type = timestamp_date; year = word u32 c.y; month = c.m; day = c.d }
