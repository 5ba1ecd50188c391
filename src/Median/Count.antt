-- ===== src/Median/Count.antt =====
-- Counting, and what a median is: nothing here is taken from the code.
use devel_mysql_plugin.Common.{
  ℕ, zero, suc, ◌+◌, ◌-◌, ◌/◌, ◌%◌, ◌≤◌, ◌≡◌, ◌⊎◌, arith, Bool, false, some, List, [], ◌∷◌, length,
  get_elem?, if◌then◌else◌,
}
use devel_mysql_plugin.Median.Sort.{Doubles}

module _ {A : Type 0} where
  unfoldable pub count : (A → Bool) → List A → ℕ
  count p [] = 0
  count p (x ∷ xs) = (if p x then 1 else 0) + count p xs

  unfoldable pub Held : A → List A → Type 0
  Held a xs = (i : ℕ) × (get_elem? xs i ≡ some a)

  pub count_none :
      (p : A → Bool) (xs : List A) (k : ℕ) (a : A)
      → count p xs ≡ 0
      → get_elem? xs k ≡ some a
      → p a ≡ false
  unfolding count
  count_none p [] k a h e = ground arith
  count_none p (x ∷ xs) zero a h e = ground arith
  count_none p (x ∷ xs) (suc k) a h e = count_none p xs k a (ground arith) e

  pub count_all : (p : A → Bool) (xs : List A) → count p xs ≤ length xs
  unfolding count
  count_all p [] = omega arith
  count_all p (x ∷ xs) = ground (arith, count_all p xs)

module _ (d : Doubles) where
  open d use {Double, lt, add, halve}

  -- `a` is a value with at most `k` of the values below it and at most all but k + 1 above it.
  pub record HasRank (k : ℕ) (xs : List Double) (a : Double) : Type 0 where
    pub held : Held a xs
    pub below : count (λ x. lt x a) xs ≤ k
    pub above : count (λ x. lt a x) xs + k + 1 ≤ length xs

  -- The middle value, or half the sum of the two middle values.
  unfoldable pub IsMedian : List Double → Double → Type 0
  IsMedian xs r =
      ((length xs % 2 ≡ 1) × HasRank (length xs / 2) xs r)
      ⊎ ((length xs % 2 ≡ 0)
          × ((a b : Double) × HasRank (length xs / 2 - 1) xs a
              × HasRank (length xs / 2) xs b
              × (r ≡ halve (add a b))))
