-- ===== src/Median/Bag/Versions.antt =====
-- Both versions of the aggregate compute the median of the bag.
use mathlib.Core.Quot
use devel_mysql_plugin.Common.{
  ℕ, ◌≡◌, ◌∙◌, refl, ap, sym, arith, Bool, false, Option, none, some, List, [], ◌∷◌, if◌then◌else◌,
}
use devel_mysql_plugin.Median.Sort.{Doubles, IsOrder, sort}
use devel_mysql_plugin.Median.Udf.{Udf, my_median, middle, answer}
use devel_mysql_plugin.Median.Middle.{middle-IsMedian}
use devel_mysql_plugin.Median.Groups.{values, group, group_run, holding}
use devel_mysql_plugin.Median.Linux
use devel_mysql_plugin.Median.Linux.{State, doubles}
use devel_mysql_plugin.Median.Bag.{SameItems, IsLinear, bag_median}

-- The value that the server shows: NULL if the flag says so. The outer `none` is a call that goes astray.
unfoldable pub shown : {A S : Type 0} → (S → Bool) → Option (A × S) → Option (Option A)
shown is_null none = none
shown is_null (some (r, s)) = some (if is_null s then none else some r)

module _ (d : Doubles) (o : IsOrder d) (l : IsLinear d) where
  open d use {Double}

  abbrev pub mac_null : Udf d → Bool
  mac_null u = u.is_null

  abbrev pub linux_null : State d → Bool
  linux_null s = s.is_null

  mac_answer :
      (u : Udf d) (v : List Double) (m : Option Double) (r : Double)
      → u.is_null ≡ false
      → m ≡ some r
      → shown mac_null (answer d u v m) ≡ some m
  unfolding shown
  mac_answer u v none r off e = absurd (ground (arith, e))
  mac_answer u v (some q) r off e = ap (λ b. some (if b then none else some q)) off

  linux_answer :
      (s : State d) (v : List Double) (m : Option Double) (r : Double)
      → s.is_null ≡ false
      → m ≡ some r
      → shown linux_null (Linux.answer d s v m) ≡ some m
  unfolding shown
  linux_answer s v none r off e = absurd (ground (arith, e))
  linux_answer s v (some q) r off e = ap (λ b. some (if b then none else some q)) off

  mac_shown :
      (xs : List Double) (u : Udf d)
      → u.is_null ≡ false
      → shown mac_null (my_median d (holding d xs u)) ≡ some (middle d (sort d xs))
  unfolding shown my_median sort middle
  mac_shown [] u off = refl
  mac_shown (x ∷ xs) u off =
      let (r, e, med) = middle-IsMedian d o (x ∷ xs) (omega arith) in
      mac_answer (holding d (x ∷ xs) u) (sort d (x ∷ xs)) (middle d (sort d (x ∷ xs))) r off e

  linux_shown :
      (xs : List Double) (s : State d)
      → s.is_null ≡ false
      → shown linux_null (Linux.my_median d (record s { ptr = some xs }))
        ≡ some (middle d (sort d xs))
  unfolding shown Linux.my_median sort middle
  linux_shown [] s off = refl
  linux_shown (x ∷ xs) s off =
      let (r, e, med) = middle-IsMedian d o (x ∷ xs) (omega arith) in
      linux_answer (record s { ptr = some (x ∷ xs) }) (sort d (x ∷ xs)) (middle d (sort d (x ∷ xs)))
        r off e

  -- What the server shows for a group on Mac is the median of the bag of the values that
  -- are not NULL, and NULL for the empty bag: the order of the rows does not matter, nor what an
  -- earlier group left behind.
  pub group_bag :
      (rows : List (Option Double)) (u : Udf d) (vs : List Double)
      → u.ptr ≡ some vs
      → shown mac_null (group d rows u) ≡ some (bag_median d o l (Quot.mk (values d rows)))
  unfolding bag_median
  group_bag rows u vs e =
      ap (shown mac_null) (group_run d rows u vs e)
      ∙ mac_shown (values d rows) (record u { is_null = false }) refl

  linux_group_bag :
      (of_bits : ℕ → Double) (rows : List (Option Double)) (s : State d) (vs : List Double)
      → s.ptr ≡ some vs
      → s.is_null ≡ false
      → shown linux_null (Linux.group d of_bits (doubles d of_bits rows) s)
        ≡ some (bag_median d o l (Quot.mk (values d rows)))
  unfolding bag_median
  linux_group_bag of_bits rows s vs e off =
      ap (shown linux_null) (Linux.group_run d of_bits rows s vs e)
      ∙ linux_shown (values d rows) s off

  -- The two versions show the same for two groups that hold the same values in any order, as doubles,
  -- whatever earlier groups left in the contexts that both have, if the flag for NULL is off when the
  -- Linux version starts. `<` is a strict linear order on the doubles, so that there is no NaN
  -- and no second zero.
  pub versions_agree :
      (of_bits : ℕ → Double) (rows rows' : List (Option Double)) (u : Udf d) (s : State d)
      (vs ws : List Double)
      → SameItems (values d rows) (values d rows')
      → u.ptr ≡ some vs
      → s.ptr ≡ some ws
      → s.is_null ≡ false
      → shown mac_null (group d rows u)
        ≡ shown linux_null (Linux.group d of_bits (doubles d of_bits rows') s)
  versions_agree of_bits rows rows' u s vs ws same e f off =
      group_bag rows u vs e
      ∙ ap (λ b. some (bag_median d o l b)) (Quot.sound same)
      ∙ sym (linux_group_bag of_bits rows' s ws f off)
