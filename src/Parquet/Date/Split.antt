-- ===== src/Parquet/Date/Split.antt =====
-- The split of `z` into an era and a day of the era, for either sign of `z`, and the leap years of
-- an era.
use devel_mysql_plugin.Common.{
  ℕ, ◌+◌, ◌-◌, ◌*◌, ◌^◌, ◌≤◌, ◌<◌, ◌≡◌, ap, arith, ℤ, pos, negsuc, pos_part, neg_part, ◌+ℤ◌, ◌-ℤ◌,
  ◌≤ℤ◌, scale, IntRange, int_laws, +ℤ_parts, wrap_signed, if◌then◌else◌,
}
use devel_mysql_plugin.Parquet.Date.{u32, era_of, doe_of}
use devel_mysql_plugin.Parquet.Date.Calendar.{is_leap}
use devel_mysql_plugin.Parquet.Date.Era.{year_start, year_end}

abbrev pub Int32 : ℤ → Type 0
Int32 = IntRange (negsuc (2 ^ 31 - 1)) (pos (2 ^ 31 - 1))

pub wrap_signed-Int32 : (z : ℤ) → Int32 z → wrap_signed u32 z ≡ z
unfolding wrap_signed
wrap_signed-Int32 z h = ground arith

-- `z` is split into an era and a day of the era, and no operation of the code overflows.
pub record Split (z era : ℤ) (doe : ℕ) : Type 0 where
  pub whole : scale era 146097 +ℤ pos doe ≡ z
  pub within : doe < 146097
  pub small : IntRange (negsuc 14800) (pos 14800) era

pub era_of-Split :
    (z : ℤ) → Int32 z → negsuc (2 ^ 31 - 1) ≤ℤ z -ℤ pos 146096 → Split z (era_of z) (doe_of z)
unfolding era_of doe_of ◌+ℤ◌
era_of-Split (pos n) h k = ground arith
era_of-Split (negsuc n) h k = ground arith

pub scale_parts :
    (z : ℤ) (k : ℕ) → pos_part (scale z k) + neg_part z * k ≡ neg_part (scale z k) + pos_part z * k
unfolding scale
scale_parts (pos n) k = omega arith
scale_parts (negsuc n) k = ground arith

pub Split-unique : {z e f : ℤ} {a b : ℕ} → Split z e a → Split z f b → (e ≡ f) × (a ≡ b)
Split-unique {z} {e} {f} {a} {b} s t = ground (
  arith,
  +ℤ_parts (scale e 146097) (pos a),
  +ℤ_parts (scale f 146097) (pos b),
  scale_parts e 146097,
  scale_parts f 146097,
)

module _ {z e : ℤ} {a : ℕ} (s : Split z e a) (h : z ≤ℤ pos (2 ^ 31 - 2)) where
  pub Split-next_day : a < 146096 → Split (z +ℤ pos 1) e (a + 1)
  Split-next_day lt = record {
    whole = omega (int_laws, ap pos_part s.whole, ap neg_part s.whole);
    within = omega arith;
    small = s.small;
  }

  pub Split-next_era : 146096 ≤ a → Split (z +ℤ pos 1) (e +ℤ pos 1) 0
  Split-next_era le = record {
    whole = omega (
      int_laws,
      ap pos_part s.whole,
      ap neg_part s.whole,
      s.within,
      scale_parts e 146097,
      scale_parts (e +ℤ pos 1) 146097,
    );
    within = omega arith;
    small =
        omega (int_laws, ap pos_part s.whole, ap neg_part s.whole, s.small, scale_parts e 146097);
  }

-- The leap years of an era do not depend on the era.
pub is_leap-era : (era : ℤ) (y : ℕ) → y ≤ 400 → is_leap (pos y +ℤ scale era 400) ≡ is_leap (pos y)
unfolding is_leap ◌+ℤ◌ scale
is_leap-era (pos n) y h = ground arith
is_leap-era (negsuc n) y h = ground arith

pub year_length :
    (y : ℕ) → y < 400 → year_start y + (if is_leap (pos (y + 1)) then 366 else 365) ≡ year_end y
unfolding is_leap
year_length y h = ground arith
