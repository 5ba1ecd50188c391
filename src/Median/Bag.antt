-- ===== src/Median/Bag.antt =====
-- The median as a function of the values alone: of the bag that is left when their order is forgotten.
pub mod Versions
use mathlib.Core.Path.{ap₂}
use mathlib.Core.Quot
use mathlib.Core.Quot.{Quot, Quot-set}
use devel_mysql_plugin.Common.{
  ℕ, zero, suc, ◌+◌, ◌≡◌, ◌∙◌, refl, ap, sym, arith, Bool, true, false, Option, none, some, List,
  [], ◌∷◌, if◌then◌else◌,
}
use devel_mysql_plugin.Median.Sort.{Doubles, IsOrder, insert, sort}
use devel_mysql_plugin.Median.Udf.{middle}
use devel_mysql_plugin.Median.Count.{count}
use devel_mysql_plugin.Median.Sorted.{IsSorted, count-sort, sort-IsSorted}

-- The two lists hold the same values, each as often: no test tells them apart by how many pass.
abbrev pub SameItems : {A : Type 0} → List A → List A → Type 0
SameItems {A} xs ys = (p : A → Bool) → count p xs ≡ count p ys

-- Doubles up to `==`: of two that are different one is less, and the type is a set.
pub record IsLinear (d : Doubles) : Type 0 where
  pub linear : (x y : d.Double) → d.lt x y ≡ false → d.lt y x ≡ false → x ≡ y
  pub is_set : IsSet d.Double

module _ (d : Doubles) (o : IsOrder d) (l : IsLinear d) where
  open d use {Double, lt}

  SameItems-nil : (x : Double) (xs : List Double) → SameItems [] (x ∷ xs) → ⊥
  unfolding count
  SameItems-nil x xs h = omega (arith, h (λ y. true))

  -- The first of two sorted lists is the least of the same values.
  heads :
      (x y : Double) (xs ys : List Double)
      → IsSorted d (x ∷ xs)
      → IsSorted d (y ∷ ys)
      → SameItems (x ∷ xs) (y ∷ ys)
      → x ≡ y
  unfolding IsSorted count
  heads x y xs ys s t h =
      l.linear x y (ground (arith, h (λ z. lt z y), t.0, o.irreflexive y))
        (ground (arith, h (λ z. lt z x), s.0, o.irreflexive x))

  tails :
      (x y : Double) (xs ys : List Double) → x ≡ y → SameItems (x ∷ xs) (y ∷ ys) → SameItems xs ys
  unfolding count
  tails x y xs ys same h p = omega (arith, h p, ap {B = ℕ} (λ z. if p z then 1 else 0) same)

  sorted_unique : (xs ys : List Double) → IsSorted d xs → IsSorted d ys → SameItems xs ys → xs ≡ ys
  unfolding IsSorted
  sorted_unique [] [] s t h = refl
  sorted_unique [] (y ∷ ys) s t h = absurd (SameItems-nil y ys h)
  sorted_unique (x ∷ xs) [] s t h = absurd (SameItems-nil x xs (λ p. sym (h p)))
  sorted_unique (x ∷ xs) (y ∷ ys) s t h =
      let same : x ≡ y = heads x y xs ys s t h in
      ap₂ ◌∷◌ same (sorted_unique xs ys s.1 t.1 (tails x y xs ys same h))

  pub sort_same : (xs ys : List Double) → SameItems xs ys → sort d xs ≡ sort d ys
  sort_same xs ys h =
      sorted_unique (sort d xs) (sort d ys) (sort-IsSorted d o xs) (sort-IsSorted d o ys)
        (λ p. omega (arith, count-sort d p xs, count-sort d p ys, h p))

  -- The bag of some doubles, and its median, if it is not empty.
  abbrev pub Bag : Type 0
  Bag = Quot (SameItems {A = Double})

  unfoldable pub bag_median : Bag → Option Double
  bag_median =
      Quot.lift (hlevel l.is_set) (λ xs. middle d (sort d xs))
        (λ xs ys h. ap (middle d) (sort_same xs ys h))
