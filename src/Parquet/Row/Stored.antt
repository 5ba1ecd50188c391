-- ===== src/Parquet/Row/Stored.antt =====
-- The integers that the type dispatch stores.
use devel_mysql_plugin.Common.{
  ℕ, ◌-◌, ◌^◌, ◌<◌, ◌≡◌, arith, ℤ, pos, negsuc, IntRange, Bool, true, false, Option, none, some,
  word, if◌then◌else◌,
}
use devel_mysql_plugin.Parquet.Arrow.{
  Values, bools, int8s, int16s, int32s, int64s, uint8s, uint16s, uint32s, uint64s,
}
use devel_mysql_plugin.Parquet.Row.{FieldCall, store_int, longlong, store_value}

-- The integer types of Arrow: the range of each, and the integer at an index.
abbrev pub Fits : Values → ℤ → Type 0
Fits (int8s _) z = IntRange (negsuc (2 ^ 7 - 1)) (pos (2 ^ 7 - 1)) z
Fits (int16s _) z = IntRange (negsuc (2 ^ 15 - 1)) (pos (2 ^ 15 - 1)) z
Fits (int32s _) z = IntRange (negsuc (2 ^ 31 - 1)) (pos (2 ^ 31 - 1)) z
Fits (int64s _) z = IntRange (negsuc (2 ^ 63 - 1)) (pos (2 ^ 63 - 1)) z
Fits (uint8s _) z = IntRange (pos 0) (pos (2 ^ 8 - 1)) z
Fits (uint16s _) z = IntRange (pos 0) (pos (2 ^ 16 - 1)) z
Fits (uint32s _) z = IntRange (pos 0) (pos (2 ^ 32 - 1)) z
Fits (uint64s _) z = IntRange (pos 0) (pos (2 ^ 64 - 1)) z
Fits _ z = Unit {0}

abbrev pub integer_at : Values → ℕ → Option ℤ
integer_at (bools a) i = some (pos (if a i then 1 else 0))
integer_at (int8s a) i = some (a i)
integer_at (int16s a) i = some (a i)
integer_at (int32s a) i = some (a i)
integer_at (int64s a) i = some (a i)
integer_at (uint8s a) i = some (pos (a i))
integer_at (uint16s a) i = some (pos (a i))
integer_at (uint32s a) i = some (pos (a i))
integer_at (uint64s a) i = some (pos (a i))
integer_at _ i = none

-- The integer that `Field::store(longlong, bool)` is given: the flag says that the word has no sign.
abbrev pub given_int : ℤ → Bool → ℤ
given_int nr true = pos (word (2 ^ 64) nr)
given_int nr false = nr

abbrev pub GivesInt : FieldCall → ℤ → Type 0
GivesInt (store_int nr unsigned) z = given_int nr unsigned ≡ z
GivesInt _ z = ⊥

signed_word : (z : ℤ) → IntRange (negsuc (2 ^ 63 - 1)) (pos (2 ^ 63 - 1)) z → longlong z ≡ z
unfolding longlong
signed_word z h = ground arith

unsigned_word : (n : ℕ) → n < 2 ^ 64 → given_int (longlong (pos n)) true ≡ pos n
unfolding longlong word
unsigned_word n h = ground arith

some_eq : {a b : ℤ} → some a ≡ some b → a ≡ b
some_eq e = cc

-- Every integer and Boolean that Arrow holds reaches the field as that integer, the unsigned 64-bit
-- ones above 2 ^ 63 included, whose `longlong` is negative.
pub store_value-GivesInt :
    (v : Values) (i : ℕ) (z : ℤ) → integer_at v i ≡ some z → Fits v z → GivesInt (store_value v i) z
unfolding store_value
store_value-GivesInt (bools a) i z e h = ground (arith, signed_word (pos 0), signed_word (pos 1))
store_value-GivesInt (int8s a) i z e h = ground (arith, signed_word z)
store_value-GivesInt (int16s a) i z e h = ground (arith, signed_word z)
store_value-GivesInt (int32s a) i z e h = ground (arith, signed_word z)
store_value-GivesInt (int64s a) i z e h = ground (arith, signed_word z)
store_value-GivesInt (uint8s a) i z e h = ground (arith, unsigned_word (a i))
store_value-GivesInt (uint16s a) i z e h = ground (arith, unsigned_word (a i))
store_value-GivesInt (uint32s a) i z e h = ground (arith, unsigned_word (a i))
store_value-GivesInt (uint64s a) i z e h = ground (arith, unsigned_word (a i))
store_value-GivesInt _ i z e h = cc
