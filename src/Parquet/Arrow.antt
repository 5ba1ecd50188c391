-- ===== src/Parquet/Arrow.antt =====
-- What the engine sees of Apache Arrow: a table of columns, each a list of chunks. Arrow is not part
-- of the repository, so a chunk is any length, any null test and any accessor of its type.
use devel_mysql_plugin.Common.{ℕ, ℤ, Bool, Option, List}
use devel_mysql_plugin.Parquet.Timestamp.{TimeUnit}

-- arrow::Type with the accessor of the array class that the engine casts to. A text is its bytes, a
-- floating-point number its bits. `others` is `GetScalar` with `ToString`, or its failure.
pub data Values : Type 0 where
  bools : (ℕ → Bool) → Values
  int8s int16s int32s int64s : (ℕ → ℤ) → Values
  uint8s uint16s uint32s uint64s : (ℕ → ℕ) → Values
  half_floats floats doubles : (ℕ → ℕ) → Values
  strings large_strings binaries large_binaries : (ℕ → List ℕ) → Values
  date32s date64s : (ℕ → ℤ) → Values
  timestamps : TimeUnit → (ℕ → ℤ) → Values
  decimal128s decimal256s : (ℕ → List ℕ) → Values
  others : (ℕ → Option (List ℕ)) → Values

-- arrow::Array.
pub record Array : Type 0 where
  pub values : Values
  pub length : ℕ
  pub is_null : ℕ → Bool

-- arrow::ChunkedArray, by its chunks.
abbrev pub ChunkedArray : Type 0
ChunkedArray = List Array

-- arrow::Table.
pub record ArrowTable : Type 0 where
  pub columns : List ChunkedArray
  pub num_rows : ℕ
