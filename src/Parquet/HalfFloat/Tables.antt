-- ===== src/Parquet/HalfFloat/Tables.antt =====
-- The bit operations of the conversion, checked against arithmetic on every 16-bit pattern.
use devel_mysql_plugin.Common.{
  ℕ, ◌+◌, ◌*◌, ◌/◌, ◌%◌, ◌^◌, ◌<◌, ◌≡◌, refl, true, Bool, arith, ◌==◌, ==_iff, if◌then◌else◌,
  each_below, each_below_lem,
}
use devel_mysql_plugin.Parquet.HalfFloat.{half_to_float}

-- The fields of a binary16.
abbrev pub half_sign : ℕ → ℕ
half_sign hf = hf / 2 ^ 15

abbrev pub half_exp : ℕ → ℕ
half_exp hf = hf / 2 ^ 10 % 2 ^ 5

abbrev pub half_mant : ℕ → ℕ
half_mant hf = hf % 2 ^ 10

-- The pattern that the code builds, by sums.
abbrev pub assembled : ℕ → ℕ
assembled hf =
    half_sign hf * 2 ^ 31
    + (if half_exp hf == 0 then 0 else if half_exp hf == 31 then 255 else half_exp hf + 112)
      * 2 ^ 23
    + half_mant hf * 2 ^ 13

row_ok : ℕ → Bool
row_ok hi = each_below (λ lo. half_to_float (hi * 256 + lo) == assembled (hi * 256 + lo)) 256

table : each_below row_ok 256 ≡ true
unfolding each_below row_ok half_to_float
table = refl

row_checked : (hi : ℕ) → hi < 256 → row_ok hi ≡ true
row_checked hi h = each_below_lem row_ok 256 hi h table

pub half_to_float-assembled : (hf : ℕ) → hf < 2 ^ 16 → half_to_float hf ≡ assembled hf
half_to_float-assembled hf h = rw whole at checked
  where
    whole : hf / 256 * 256 + hf % 256 ≡ hf
    whole = omega arith

    test : ℕ → Bool
    test lo = half_to_float (hf / 256 * 256 + lo) == assembled (hf / 256 * 256 + lo)

    row : each_below test 256 ≡ true
    row = unfold row_ok in row_checked (hf / 256) (omega arith)

    checked : half_to_float (hf / 256 * 256 + hf % 256) ≡ assembled (hf / 256 * 256 + hf % 256)
    checked = (==_iff _ _).0 (each_below_lem test 256 (hf % 256) (omega arith) row)
