-- ===== src/Parquet/Date/Steps.antt =====
-- The locals `y`, `m`, `d` as a date, and what they become when the day goes on by one.
use devel_mysql_plugin.Common.{
  ℕ, ◌+◌, ◌-◌, ◌^◌, ◌≤◌, ◌<◌, ◌≡◌, refl, ap, ◌∙◌, inl, inr, arith, ℤ, pos, negsuc, ◌+ℤ◌, ◌≤ℤ◌,
  scale, true, IntRange, int_laws, signed, wrap_signed, if◌then◌else◌, ◌==◌, leb,
}
use native.Mathlib.Decide.{dec_lt}
use devel_mysql_plugin.Parquet.Date.{u32, yoe_of, doy_of, m_of, d_of, Civil, civil_from_era}
use devel_mysql_plugin.Parquet.Date.Calendar.{Day, is_leap, days_in_month, next_day}
use devel_mysql_plugin.Parquet.Date.Era.{
  year_start, year_end, yoe_of_bounds, doy_of_lem, doe_step, month_length, march_step, march_bounds,
  march_february,
}
use devel_mysql_plugin.Parquet.Date.Split.{
  Int32, wrap_signed-Int32, Split, scale_parts, Split-unique, Split-next_day, Split-next_era,
  is_leap-era, year_length,
}

-- The date of day `doy` of the year `y` of an era.
abbrev pub year_of : ℤ → ℕ → ℕ → ℤ
year_of era y doy =
    if leb (m_of doy) 2 then pos (y + 1) +ℤ scale era 400 else pos y +ℤ scale era 400

abbrev pub date_of : ℤ → ℕ → ℕ → Day
date_of era y doy = record { year = year_of era y doy; month = m_of doy; day = d_of doy }

abbrev pub as_day : Civil → Day
as_day c = record { year = c.y; month = c.m; day = c.d }

wrapped_year :
    (era : ℤ) (y : ℕ)
    → IntRange (negsuc 14800) (pos 14800) era
    → y < 400
    → wrap_signed u32 (signed u32 y +ℤ scale era 400) ≡ pos y +ℤ scale era 400
unfolding signed
wrapped_year era y small h =
    let e : signed u32 y ≡ pos y = ground arith in
    rw e (wrap_signed-Int32 _ (omega (int_laws, scale_parts era 400)))

new_year : (s : ℤ) (y : ℕ) → pos (y + 1) +ℤ s ≡ pos y +ℤ s +ℤ pos 1
new_year s y = omega int_laws

year_small :
    (era : ℤ) (y : ℕ)
    → IntRange (negsuc 14800) (pos 14800) era
    → y < 400
    → Int32 (pos y +ℤ scale era 400 +ℤ pos 1)
year_small era y small h = omega (int_laws, scale_parts era 400)

pub civil_from_era-eq :
    {z era : ℤ} {doe : ℕ}
    → Split z era doe
    → as_day (civil_from_era era doe) ≡ date_of era (yoe_of doe) (doy_of doe)
unfolding civil_from_era
civil_from_era-eq {z} {era} {doe} s = ground (
  arith,
  yoe_of_bounds doe s.within,
  wrapped_year era (yoe_of doe) s.small,
  wrap_signed-Int32 (pos (yoe_of doe) +ℤ scale era 400 +ℤ pos 1),
  new_year (scale era 400) (yoe_of doe),
  year_small era (yoe_of doe) s.small,
)

pub days_in_month-eq :
    (y : ℤ) (m : ℕ)
    → days_in_month y m ≡ (if m == 2 then (if is_leap y then 29 else 28) else month_length m)
unfolding days_in_month
days_in_month-eq y m = ground arith

within_year :
    (era : ℤ) (y doy : ℕ)
    → y < 400
    → doy + 1 < (if is_leap (pos (y + 1)) then 366 else 365)
    → date_of era y (doy + 1) ≡ next_day (date_of era y doy)
unfolding next_day
within_year era y doy h k = ground (
  arith,
  march_step doy,
  march_bounds doy,
  march_february doy,
  is_leap-era era (y + 1),
  days_in_month-eq (year_of era y doy) (m_of doy),
  new_year (scale era 400) y,
)

march_first : (m_of 0 ≡ 3) × (d_of 0 ≡ 1)
unfolding m_of d_of
march_first = (refl, refl)

year_turns :
    (era : ℤ) (y doy : ℕ)
    → y < 400
    → doy + 1 ≡ (if is_leap (pos (y + 1)) then 366 else 365)
    → date_of era (y + 1) 0 ≡ next_day (date_of era y doy)
unfolding next_day
year_turns era y doy h k = ground (
  arith,
  march_first,
  march_bounds doy,
  march_february doy,
  is_leap-era era (y + 1),
  days_in_month-eq (year_of era y doy) (m_of doy),
  new_year (scale era 400) y,
)

era_turns : (era : ℤ) → date_of (era +ℤ pos 1) 0 0 ≡ date_of era 400 0
unfolding m_of
era_turns era = ap (λ y. record { year = y; month = 3; day = d_of 0 }) turned
  where
    turned : pos 0 +ℤ scale (era +ℤ pos 1) 400 ≡ pos 400 +ℤ scale era 400
    turned = omega (int_laws, scale_parts era 400, scale_parts (era +ℤ pos 1) 400)

day_step :
    (era : ℤ) (doe : ℕ)
    → doe < 146096
    → date_of era (yoe_of (doe + 1)) (doy_of (doe + 1))
      ≡ next_day (date_of era (yoe_of doe) (doy_of doe))
day_step era doe lt = elim (doe_step doe lt) [
  | inl (same, later) ↦
      rw (same, later)
        (within_year era (yoe_of doe) (doy_of doe) bounds.2 (
          ground (
            arith,
            year_length (yoe_of doe) bounds.2,
            doy_of_lem doe (omega arith),
            doy_of_lem (doe + 1) (omega arith),
            yoe_of_bounds (doe + 1) (omega arith),
          )))
  | inr (turned, first, last) ↦
      rw (turned, first)
        (year_turns era (yoe_of doe) (doy_of doe) bounds.2
          (ground (arith, year_length (yoe_of doe) bounds.2, doy_of_lem doe (omega arith))))
]
  where
    bounds : (year_start (yoe_of doe) ≤ doe) × (doe < year_end (yoe_of doe)) × (yoe_of doe < 400)
    bounds = yoe_of_bounds doe (omega arith)

era_ends : (yoe_of 146096 ≡ 399) × (doy_of 146096 ≡ 365) × (yoe_of 0 ≡ 0) × (doy_of 0 ≡ 0)
unfolding yoe_of doy_of
era_ends = (refl, refl, refl, refl)

leap_400 : is_leap (pos 400) ≡ true
unfolding is_leap
leap_400 = refl

era_step :
    (era : ℤ)
    → date_of (era +ℤ pos 1) (yoe_of 0) (doy_of 0)
      ≡ next_day (date_of era (yoe_of 146096) (doy_of 146096))
era_step era =
    rw (era_ends.0, era_ends.1, era_ends.2, era_ends.3)
      (era_turns era ∙ year_turns era 399 365 (omega arith) (rw leap_400))

-- One step of `z` is one step of the calendar.
pub civil_step :
    {z e f : ℤ} {a b : ℕ}
    → Split z e a
    → Split (z +ℤ pos 1) f b
    → z ≤ℤ pos (2 ^ 31 - 2)
    → date_of f (yoe_of b) (doy_of b) ≡ next_day (date_of e (yoe_of a) (doy_of a))
civil_step {z} {e} {f} {a} {b} s t h = elim (dec_lt a 146096) [
  | yes lt ↦ let u = Split-unique t (Split-next_day s h lt) in rw (u.0, u.1) (day_step e a lt)
  | no ge ↦
      let u = Split-unique t (Split-next_era s h (omega arith)) in
      let last : a ≡ 146096 = omega (arith, s.within) in rw (u.0, u.1, last) (era_step e)
]
