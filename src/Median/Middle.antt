-- ===== src/Median/Middle.antt =====
-- The middle of the sorted values is a median.
use devel_mysql_plugin.Common.{
  get_elem?_below, ℕ, ◌-◌, ◌/◌, ◌%◌, ◌≤◌, ◌<◌, ◌≡◌, inl, inr, refl, arith, some, List, length,
  get_elem?,
}
use native.Mathlib.Decide.{dec_lt}
use devel_mysql_plugin.Median.Sort.{Doubles, IsOrder, sort}
use devel_mysql_plugin.Median.Udf.{middle, mean}
use devel_mysql_plugin.Median.Count.{HasRank, IsMedian}
use devel_mysql_plugin.Median.Sorted.{length-sort, sort-HasRank}

module _ (d : Doubles) where
  open d use {Double, lt, add, halve}

  module _ (o : IsOrder d) where
    -- Some value stands at each index.
    sorted_at :
        (xs : List Double) (k : ℕ)
        → k < length xs
        → (a : Double) × (get_elem? (sort d xs) k ≡ some a) × HasRank d k xs a
    sorted_at xs k h =
        let (a, e) = get_elem?_below (sort d xs) k (omega (arith, length-sort d xs)) in
        (a, e, sort-HasRank d o xs k a e)

    middle_odd :
        (v : List Double) (r : Double)
        → length v % 2 ≡ 1
        → get_elem? v (length v / 2) ≡ some r
        → middle d v ≡ some r
    unfolding middle
    middle_odd v r odd e = ground (arith, e)

    middle_even :
        (v : List Double) (a b : Double)
        → length v % 2 ≡ 0
        → get_elem? v (length v / 2 - 1) ≡ some a
        → get_elem? v (length v / 2) ≡ some b
        → middle d v ≡ some (halve (add a b))
    unfolding middle
    middle_even v a b even e f =
        let means : mean d (get_elem? v (length v / 2 - 1)) (get_elem? v (length v / 2))
            ≡ some (halve (add a b)) =
          rw (e, f) refl in
        ground (arith, means)

    pub middle-IsMedian :
        (xs : List Double)
        → 1 ≤ length xs
        → (r : Double) × (middle d (sort d xs) ≡ some r) × IsMedian d xs r
    unfolding IsMedian
    middle-IsMedian xs h = elim (dec_lt (length xs % 2) 1) [
      | yes even ↦
          let (a, at_a, a_rank) = sorted_at xs (length xs / 2 - 1) (omega arith) in
          let (b, at_b, b_rank) = sorted_at xs (length xs / 2) (omega arith) in
          let len = length-sort d xs in
          (
            halve (add a b),
            middle_even (sort d xs) a b (omega (arith, len)) (rw len at_a) (rw len at_b),
            inr (omega arith, (a, b, a_rank, b_rank, refl)),
          )
      | no odd ↦
          let (r, at_r, r_rank) = sorted_at xs (length xs / 2) (omega arith) in
          let len = length-sort d xs in
          (
            r,
            middle_odd (sort d xs) r (omega (arith, len)) (rw len at_r),
            inl (omega arith, r_rank),
          )
    ]
