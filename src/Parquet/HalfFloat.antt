-- ===== src/Parquet/HalfFloat.antt =====
-- The case HALF_FLOAT of `ha_parquet::fill_row` in Source/05_ReadParquet/Linux/ha_parquet.cc: the
-- bits of a binary16 are rearranged into those of a binary32.
pub mod Tables
pub mod Value
use Prim.Native.Nat.{bit_and, bit_or}
use devel_mysql_plugin.Common.{ℕ, ◌+◌, ◌*◌, ◌/◌, ◌%◌, ◌^◌, ◌==◌, if◌then◌else◌}

-- uint32_t x << k and x >> k.
abbrev pub shl : ℕ → ℕ → ℕ
shl x k = x * 2 ^ k % 2 ^ 32

abbrev pub shr : ℕ → ℕ → ℕ
shr x k = x / 2 ^ k

-- `f32`, from the 16 bits `hf`.
unfoldable pub half_to_float : ℕ → ℕ
half_to_float hf =
    let exp = bit_and (shr hf 10) 0x1f in
    let mant = bit_and hf 0x3ff in
    let sign = bit_and (shr hf 15) 1 in
    if exp == 0
    then bit_or (shl sign 31) (shl mant 13)
    else if exp == 31
    then bit_or (bit_or (shl sign 31) 0x7f800000) (shl mant 13)
    else bit_or (bit_or (shl sign 31) (shl ((exp + 112) % 2 ^ 32) 23)) (shl mant 13)
