-- ===== src/Median/Sort.antt =====
-- `double`, and what Source/03_Median uses of <algorithm>: `std::sort`, as an insertion sort. MySQL
-- has no NaN, so a double is one that `operator<` orders.
use devel_mysql_plugin.Common.{◌≡◌, Bool, false, true, List, [], ◌∷◌, if◌then◌else◌}

-- The operations on a double: 0.0, `operator<`, `operator+`, and the division by 2.0.
pub record Doubles : Type 1 where
  pub Double : Type 0
  pub nought : Double
  pub lt : Double → Double → Bool
  pub add : Double → Double → Double
  pub halve : Double → Double

-- What `std::sort` asks of `operator<`.
pub record IsOrder (d : Doubles) : Type 0 where
  pub irreflexive : (x : d.Double) → d.lt x x ≡ false
  pub transitive : (x y z : d.Double) → d.lt x y ≡ true → d.lt y z ≡ true → d.lt x z ≡ true

module _ (d : Doubles) where
  open d use {Double, lt}

  unfoldable pub insert : Double → List Double → List Double
  insert x [] = x ∷ []
  insert x (y ∷ ys) = let rest = insert x ys in if lt x y then x ∷ y ∷ ys else y ∷ rest

  unfoldable pub sort : List Double → List Double
  unfolding insert
  sort [] = []
  sort (x ∷ xs) = insert x (sort xs)
