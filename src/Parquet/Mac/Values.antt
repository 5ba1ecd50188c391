-- ===== src/Parquet/Mac/Values.antt =====
-- The conversions of Source/05_ReadParquet/Mac/ha_parquet.cc: `days_to_mysql_date`, and the switch of
-- `fill_row` over the types with the code of its cases.
use Prim.Native.Nat.{bit_and, bit_or}
use devel_mysql_plugin.Common.{
  ℕ, ◌+◌, ◌/◌, ◌%◌, ◌^◌, ◌≡◌, ap, refl, ℤ, pos, ◌+ℤ◌, ◌-ℤ◌, scale, tdiv, tmod, ltb_ℤ, ltb, leb,
  ◌==◌, word, signed, wrap_signed, true, false, Option, none, some, List, if◌then◌else◌,
}
use devel_mysql_plugin.Libc.Time.{gmtime_r}
use devel_mysql_plugin.Parquet.MysqlTime.{MysqlTime, timestamp_date, timestamp_datetime, zeroed}
use devel_mysql_plugin.Parquet.Date.{
  u32, add32, sub32, mul32, days_to_mysql_date, civil_from_days, civil_from_era, era_of, doe_of,
  yoe_of, doy_of, mp_of, d_of, m_of,
}
use devel_mysql_plugin.Parquet.HalfFloat.{shl, shr, half_to_float}
use devel_mysql_plugin.Parquet.Timestamp.{
  TimeUnit, second, milli, micro, nano, other, date64_days, date64_to_mysql, split_timestamp,
  timestamp_to_mysql,
}
use devel_mysql_plugin.Parquet.Arrow.{
  Values, bools, int8s, int16s, int32s, int64s, uint8s, uint16s, uint32s, uint64s, half_floats,
  floats, doubles, strings, large_strings, binaries, large_binaries, date32s, date64s, timestamps,
  decimal128s, decimal256s, others,
}
use devel_mysql_plugin.Parquet.Row.{
  FieldCall, set_null, store_int, store_real, store_text, store_time, widened, double,
  utf8mb4_general_ci, bin, latin1, longlong, store_value, store_scalar,
}

-- The whole function, one local after another; `y'` is `y` after its last assignment.
unfoldable pub mac_days_to_mysql_date : ℤ → MysqlTime
mac_days_to_mysql_date days =
    let z = wrap_signed u32 (days +ℤ pos 719468) in
    let era = tdiv (if ltb_ℤ z (pos 0) then wrap_signed u32 (z -ℤ pos 146096) else z) 146097 in
    let doe = word u32 (z -ℤ wrap_signed u32 (scale era 146097)) in
    let yoe = sub32 (add32 (sub32 doe (doe / 1460)) (doe / 36524)) (doe / 146096) / 365 in
    let y = wrap_signed u32 (signed u32 yoe +ℤ scale era 400) in
    let doy = sub32 doe (sub32 (add32 (mul32 365 yoe) (yoe / 4)) (yoe / 100)) in
    let mp = add32 (mul32 5 doy) 2 / 153 in
    let d = add32 (sub32 doy (add32 (mul32 153 mp) 2 / 5)) 1 in
    let m = if ltb mp 10 then add32 mp 3 else sub32 mp 9 in
    let y' = if leb m 2 then wrap_signed u32 (y +ℤ pos 1) else y in
    record zeroed { time_type = timestamp_date; year = word u32 y'; month = m; day = d }

mac_days_same : (days : ℤ) → mac_days_to_mysql_date days ≡ days_to_mysql_date days
unfolding mac_days_to_mysql_date days_to_mysql_date civil_from_days civil_from_era era_of doe_of
    yoe_of doy_of mp_of d_of m_of
mac_days_same days = refl

-- The case HALF_FLOAT: `f32`, in the order of the tests.
unfoldable pub mac_half_float : ℕ → ℕ
mac_half_float hf =
    let exp = bit_and (shr hf 10) 0x1f in
    let mant = bit_and hf 0x3ff in
    let sign = bit_and (shr hf 15) 1 in
    if exp == 0
    then bit_or (shl sign 31) (shl mant 13)
    else if exp == 31
    then bit_or (bit_or (shl sign 31) 0x7f800000) (shl mant 13)
    else bit_or (bit_or (shl sign 31) (shl ((exp + 112) % 2 ^ 32) 23)) (shl mant 13)

-- The case DATE64.
unfoldable pub mac_date64 : ℤ → MysqlTime
mac_date64 ms = mac_days_to_mysql_date (wrap_signed u32 (tdiv ms 86400000))

-- The case TIMESTAMP: the switch over the unit, and the rest.
unfoldable pub mac_secs : TimeUnit → ℤ → ℤ
mac_secs milli ts_val = tdiv ts_val 1000
mac_secs micro ts_val = tdiv ts_val 1000000
mac_secs nano ts_val = tdiv ts_val 1000000000
mac_secs _ ts_val = ts_val

unfoldable pub mac_usecs : TimeUnit → ℤ → ℤ
mac_usecs milli ts_val = scale (tmod ts_val 1000) 1000
mac_usecs micro ts_val = tmod ts_val 1000000
mac_usecs nano ts_val = tdiv (tmod ts_val 1000000000) 1000
mac_usecs _ ts_val = pos 0

unfoldable pub mac_timestamp : TimeUnit → ℤ → MysqlTime
mac_timestamp unit ts_val =
    let tm_buf = gmtime_r (mac_secs unit ts_val) in
    record zeroed {
      time_type = timestamp_datetime;
      second_part = word (2 ^ 64) (mac_usecs unit ts_val);
      year = word u32 (tm_buf.tm_year +ℤ pos 1900);
      month = word u32 (pos tm_buf.tm_mon +ℤ pos 1);
      day = word u32 (pos tm_buf.tm_mday);
      hour = word u32 (pos tm_buf.tm_hour);
      minute = word u32 (pos tm_buf.tm_min);
      second = word u32 (pos tm_buf.tm_sec);
    }

-- The two cases of a decimal, by `s`.
abbrev pub mac_store_decimal : List ℕ → FieldCall
mac_store_decimal s = store_text s latin1

-- The `default` of the switch, and the switch: the call that follows `set_notnull`.
unfoldable pub mac_store_scalar : Option (List ℕ) → FieldCall
mac_store_scalar none = set_null
mac_store_scalar (some s) = store_text s utf8mb4_general_ci

unfoldable pub mac_store_value : Values → ℕ → FieldCall
mac_store_value (bools a) i = store_int (longlong (pos (if a i then 1 else 0))) false
mac_store_value (int8s a) i = store_int (longlong (a i)) false
mac_store_value (int16s a) i = store_int (longlong (a i)) false
mac_store_value (int32s a) i = store_int (longlong (a i)) false
mac_store_value (int64s a) i = store_int (longlong (a i)) false
mac_store_value (uint8s a) i = store_int (longlong (pos (a i))) true
mac_store_value (uint16s a) i = store_int (longlong (pos (a i))) true
mac_store_value (uint32s a) i = store_int (longlong (pos (a i))) true
mac_store_value (uint64s a) i = store_int (longlong (pos (a i))) true
mac_store_value (half_floats a) i = store_real (widened (mac_half_float (a i)))
mac_store_value (floats a) i = store_real (widened (a i))
mac_store_value (doubles a) i = store_real (double (a i))
mac_store_value (strings a) i = store_text (a i) utf8mb4_general_ci
mac_store_value (large_strings a) i = store_text (a i) utf8mb4_general_ci
mac_store_value (binaries a) i = store_text (a i) bin
mac_store_value (large_binaries a) i = store_text (a i) bin
mac_store_value (date32s a) i = store_time (mac_days_to_mysql_date (a i))
mac_store_value (date64s a) i = store_time (mac_date64 (a i))
mac_store_value (timestamps unit a) i = store_time (mac_timestamp unit (a i))
mac_store_value (decimal128s a) i = mac_store_decimal (a i)
mac_store_value (decimal256s a) i = mac_store_decimal (a i)
mac_store_value (others a) i = mac_store_scalar (a i)

timestamp_same : (unit : TimeUnit) (v : ℤ) → mac_timestamp unit v ≡ timestamp_to_mysql unit v
unfolding mac_timestamp mac_secs mac_usecs timestamp_to_mysql split_timestamp
timestamp_same second v = refl
timestamp_same milli v = refl
timestamp_same micro v = refl
timestamp_same nano v = refl
timestamp_same other v = refl

scalar_same : (s : Option (List ℕ)) → mac_store_scalar s ≡ store_scalar s
unfolding store_scalar mac_store_scalar
scalar_same none = refl
scalar_same (some s) = refl

-- Both versions store a value alike.
pub mac_store_value-store_value :
    (values : Values) (i : ℕ) → mac_store_value values i ≡ store_value values i
unfolding mac_store_value store_value mac_half_float half_to_float mac_date64 date64_to_mysql
    date64_days
mac_store_value-store_value (date32s a) i = ap store_time (mac_days_same (a i))
mac_store_value-store_value (date64s a) i = ap store_time (mac_days_same (date64_days (a i)))
mac_store_value-store_value (timestamps unit a) i = ap store_time (timestamp_same unit (a i))
mac_store_value-store_value (others a) i = scalar_same (a i)
mac_store_value-store_value _ i = refl
