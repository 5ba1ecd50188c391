-- ===== src/Parquet/Row.antt =====
-- `ha_parquet::fill_row` of Source/05_ReadParquet/Linux/ha_parquet.cc: the search for the chunk, the
-- type dispatch and the loop over the fields. The row buffer is written by MariaDB's Field; the model
-- keeps the calls that each field gets, in order. A row index is a number, since both callers have
-- tested that it is not negative.
pub mod Locate
pub mod Fields
pub mod Stored
use devel_mysql_plugin.Common.{
  ℕ, zero, suc, ◌+◌, ◌-◌, ◌^◌, ℤ, pos, Bool, true, false, Option, none, some, List, [], ◌∷◌,
  wrap_signed, ltb, get_elem?, if◌then◌else◌,
}
use devel_mysql_plugin.Parquet.HaError.{HaError, success}
use devel_mysql_plugin.Parquet.MysqlTime.{MysqlTime}
use devel_mysql_plugin.Parquet.Date.{days_to_mysql_date}
use devel_mysql_plugin.Parquet.Timestamp.{date64_to_mysql, timestamp_to_mysql}
use devel_mysql_plugin.Parquet.HalfFloat.{half_to_float}
use devel_mysql_plugin.Parquet.Arrow.{
  Values, bools, int8s, int16s, int32s, int64s, uint8s, uint16s, uint32s, uint64s, half_floats,
  floats, doubles, strings, large_strings, binaries, large_binaries, date32s, date64s, timestamps,
  decimal128s, decimal256s, others, Array, ChunkedArray, ArrowTable,
}

pub data Charset : Type 0 where
  utf8mb4_general_ci bin latin1 : Charset

-- The argument of `Field::store(double)`: a `float` that is widened, or a `double`, by its bits.
pub data Real : Type 0 where
  widened double : ℕ → Real

-- The calls on a Field.
pub data FieldCall : Type 0 where
  set_null set_notnull : FieldCall
  store_int : ℤ → Bool → FieldCall
  store_real : Real → FieldCall
  store_text : List ℕ → Charset → FieldCall
  store_time : MysqlTime → FieldCall

-- `static_cast<longlong>(…)`.
unfoldable pub longlong : ℤ → ℤ
unfolding wrap_signed
longlong z = wrap_signed (2 ^ 64) z

-- The loop over the chunks: `arr` and `arr_offset`, if there is such a chunk.
unfoldable pub locate : ChunkedArray → ℕ → Option (Array × ℕ)
locate [] remaining = none
locate (candidate ∷ chunks) remaining =
    if ltb remaining candidate.length
    then some (candidate, remaining)
    else locate chunks (remaining - candidate.length)

-- The `default` of the switch.
unfoldable pub store_scalar : Option (List ℕ) → FieldCall
store_scalar (some s) = store_text s utf8mb4_general_ci
store_scalar none = set_null

-- The two cases of a decimal, by `s`.
abbrev pub store_decimal : List ℕ → FieldCall
store_decimal s = store_text s latin1

-- The switch over the type.
unfoldable pub store_value : Values → ℕ → FieldCall
unfolding store_scalar
store_value (bools a) i = store_int (longlong (pos (if a i then 1 else 0))) false
store_value (int8s a) i = store_int (longlong (a i)) false
store_value (int16s a) i = store_int (longlong (a i)) false
store_value (int32s a) i = store_int (longlong (a i)) false
store_value (int64s a) i = store_int (longlong (a i)) false
store_value (uint8s a) i = store_int (longlong (pos (a i))) true
store_value (uint16s a) i = store_int (longlong (pos (a i))) true
store_value (uint32s a) i = store_int (longlong (pos (a i))) true
store_value (uint64s a) i = store_int (longlong (pos (a i))) true
store_value (half_floats a) i = store_real (widened (half_to_float (a i)))
store_value (floats a) i = store_real (widened (a i))
store_value (doubles a) i = store_real (double (a i))
store_value (strings a) i = store_text (a i) utf8mb4_general_ci
store_value (large_strings a) i = store_text (a i) utf8mb4_general_ci
store_value (binaries a) i = store_text (a i) bin
store_value (large_binaries a) i = store_text (a i) bin
store_value (date32s a) i = store_time (days_to_mysql_date (a i))
store_value (date64s a) i = store_time (date64_to_mysql (a i))
store_value (timestamps unit a) i = store_time (timestamp_to_mysql unit (a i))
store_value (decimal128s a) i = store_decimal (a i)
store_value (decimal256s a) i = store_decimal (a i)
store_value (others a) i = store_scalar (a i)

-- What follows the search.
unfoldable pub store_cell : Option (Array × ℕ) → List FieldCall
store_cell none = set_null ∷ []
store_cell (some (arr, arr_offset)) =
    if arr.is_null arr_offset
    then set_null ∷ []
    else set_notnull ∷ store_value arr.values arr_offset ∷ []

-- The body of the loop over the fields; `none` is a field with no Arrow column.
unfoldable pub fill_field : Option ChunkedArray → ℕ → List FieldCall
unfolding store_cell locate
fill_field none row_idx = set_null ∷ []
fill_field (some chunked) row_idx = store_cell (locate chunked row_idx)

-- The loop from field `col` on, with `left` fields to go.
unfoldable pub fill_fields : ArrowTable → ℕ → ℕ → ℕ → List (List FieldCall)
fill_fields t row_idx col zero = []
fill_fields t row_idx col (suc left) =
    fill_field (get_elem? t.columns col) row_idx ∷ fill_fields t row_idx (col + 1) left

-- TABLE_SHARE: the number of fields, and of the bytes that hold their null bits.
pub record TableShare : Type 0 where
  pub fields : ℕ
  pub null_bytes : ℕ

-- The row buffer: the null bytes that were zeroed, then the calls for each field.
pub record RowBuffer : Type 0 where
  pub zeroed : ℕ
  pub calls : List (List FieldCall)

-- `fill_row` returns 0 on every path.
unfoldable pub fill_row : TableShare → ArrowTable → ℕ → HaError × RowBuffer
fill_row s t row_idx =
    (success, record { zeroed = s.null_bytes; calls = fill_fields t row_idx 0 s.fields })
