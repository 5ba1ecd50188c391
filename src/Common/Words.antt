-- ===== src/Common/Words.antt =====
-- Machine words: an unsigned word of w bits is a number below 2 ^ w, and a conversion wraps.
use Prim.Native.Nat.{ℕ, ◌-◌, ◌%◌, ◌/◌, ◌<◌}
use native.Mathlib.Omega.{arith}
use devel_mysql_plugin.Common.Tests.{ltb, if◌then◌else◌}
use devel_mysql_plugin.Common.Int.{ℤ, pos, negsuc}

-- The conversion of an integer to an unsigned word with `m` values, m = 2 ^ w.
unfoldable pub word : ℕ → ℤ → ℕ
word m (pos n) = n % m
word m (negsuc n) = m - 1 - n % m

-- The integer that a bit pattern stands for in two's complement.
unfoldable pub signed : ℕ → ℕ → ℤ
signed m u = if ltb u (m / 2) then pos u else negsuc (m - 1 - u)

-- The conversion of an integer to a signed word.
unfoldable pub wrap_signed : ℕ → ℤ → ℤ
unfolding word signed
wrap_signed m z = signed m (word m z)

pub word_lt : (m : ℕ) (z : ℤ) → 0 < m → word m z < m
unfolding word
word_lt m (pos n) h = omega arith
word_lt m (negsuc n) h = omega arith
