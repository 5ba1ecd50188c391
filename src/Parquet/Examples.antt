-- ===== src/Parquet/Examples.antt =====
-- Runs of the storage engine, and each theorem at a concrete input.
use devel_mysql_plugin.Common.{
  ◌+◌, ◌-◌, ◌*◌, ◌%◌, ◌^◌, ◌≡◌, ◌≢◌, ◌↔◌, ◌⊎◌, inl, ◌<◌, refl, arith, pos, negsuc, neg_part, ◌≤ℤ◌,
  ◌+ℤ◌, ◌-ℤ◌, scale, fdiv, fmod, word, signed, wrap_signed, false, some, [], ◌∷◌, get_elem?, length,
  ◌==◌,
}
use devel_mysql_plugin.Parquet.HaError.{success}
use devel_mysql_plugin.Parquet.MysqlTime.{zeroed, timestamp_date}
use devel_mysql_plugin.Parquet.Date.{
  era_of, doe_of, yoe_of, doy_of, m_of, d_of, civil_from_era, civil_from_days, days_to_mysql_date,
}
use devel_mysql_plugin.Parquet.Date.Calendar.{calendar}
use devel_mysql_plugin.Parquet.Date.Agreement.{mysql_date, days_to_mysql_date-calendar}
use devel_mysql_plugin.Parquet.Timestamp.{u64, date64_days, milli, timestamp_to_mysql}
use devel_mysql_plugin.Parquet.Timestamp.Fraction.{date64_days_iff, second_part_wraps}
use devel_mysql_plugin.Parquet.Timestamp.Clock.{
  secs_of, rest_of, day_of, Reads, timestamp_to_mysql-Reads,
}
use devel_mysql_plugin.Parquet.HalfFloat.{half_to_float}
use devel_mysql_plugin.Parquet.HalfFloat.Tables.{half_exp, half_mant}
use devel_mysql_plugin.Parquet.HalfFloat.Value.{half_size, float_size, half_to_float_exact_iff}
use devel_mysql_plugin.Parquet.Arrow.{int32s, uint64s, ChunkedArray, ArrowTable}
use devel_mysql_plugin.Parquet.Row.{
  TableShare, set_null, set_notnull, store_int, locate, store_value, store_cell, fill_field,
  fill_fields, fill_row, longlong,
}
use devel_mysql_plugin.Parquet.Row.Fields.{place_of, present, told, fill_row_cells}
use devel_mysql_plugin.Parquet.Row.Stored.{GivesInt, store_value-GivesInt}

-- 2000-02-29 is day 11016.
leap_day :
    days_to_mysql_date (pos 11016)
    ≡ record zeroed { time_type = timestamp_date; year = 2000; month = 2; day = 29 }
unfolding days_to_mysql_date civil_from_days civil_from_era era_of doe_of yoe_of doy_of m_of d_of
    scale word signed wrap_signed ◌+ℤ◌ ◌-ℤ◌
leap_day = refl

-- 1969-12-31 is the day before the epoch.
days_to_mysql_date-calendar_example :
    days_to_mysql_date (negsuc 0) ≡ mysql_date (calendar (negsuc 0))
days_to_mysql_date-calendar_example = days_to_mysql_date-calendar (negsuc 0) (omega arith)

date64_days_iff_example :
    (date64_days (negsuc 0) ≡ fdiv (negsuc 0) 86400000)
    ↔ ((pos 0 ≤ℤ negsuc 0) ⊎ (neg_part (negsuc 0) % 86400000 ≡ 0))
unfolding fdiv
date64_days_iff_example = date64_days_iff (negsuc 0) (omega arith)

timestamp_to_mysql-Reads_example :
    Reads
      (timestamp_to_mysql milli (negsuc 1233))
      (days_to_mysql_date (day_of milli (negsuc 1233)))
      (fmod (secs_of milli (negsuc 1233)) 86400)
      (rest_of milli (negsuc 1233))
unfolding fdiv
timestamp_to_mysql-Reads_example = timestamp_to_mysql-Reads milli (negsuc 1233) (omega arith)

second_part_wraps_example : u64 - 1000000 < (timestamp_to_mysql milli (negsuc 1233)).second_part
second_part_wraps_example = second_part_wraps milli 1233 (inl refl) (omega arith)

-- The smallest subnormal, 2 ^ -24.
half_to_float_exact_iff_example :
    (float_size (half_to_float 1) ≡ half_size 1 * 2 ^ 125) ↔ ((half_exp 1 ≢ 0) ⊎ (half_mant 1 ≡ 0))
half_to_float_exact_iff_example = half_to_float_exact_iff 1 (omega arith) (omega arith)

-- Two chunks of ids, and a column of words.
abbrev ids : ChunkedArray
ids =
    record { values = int32s (λ i. pos (i + 7)); length = 2; is_null = λ i. false }
    ∷ record { values = int32s (λ i. pos (i + 9)); length = 1; is_null = λ i. i == 0 }
    ∷ []

abbrev sales : ArrowTable
sales = record { columns = ids ∷ []; num_rows = 3 }

abbrev sales_share : TableShare
sales_share = record { fields = 2; null_bytes = 1 }

fill_second_row :
    (fill_row sales_share sales 1).1.calls
    ≡ (set_notnull ∷ store_int (pos 8) false ∷ []) ∷ (set_null ∷ []) ∷ []
unfolding fill_row fill_fields fill_field store_value longlong word signed wrap_signed locate
    store_cell
fill_second_row = refl

fill_row_cells_example :
    ((fill_row sales_share sales 2).0 ≡ success)
    × ((fill_row sales_share sales 2).1.zeroed ≡ 1)
    × (length (fill_row sales_share sales 2).1.calls ≡ 2)
    × (get_elem? (fill_row sales_share sales 2).1.calls 0
        ≡ some (told (present (place_of sales 0 2))))
fill_row_cells_example = fill_row_cells sales_share sales 2 0 (omega arith)

store_value-GivesInt_example :
    GivesInt (store_value (uint64s (λ i. 2 ^ 64 - 1)) 0) (pos (2 ^ 64 - 1))
store_value-GivesInt_example =
    store_value-GivesInt (uint64s (λ i. 2 ^ 64 - 1)) 0 (pos (2 ^ 64 - 1)) refl (omega arith)
