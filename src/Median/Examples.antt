-- ===== src/Median/Examples.antt =====
-- Runs of the aggregate, on natural numbers in place of doubles.
use devel_mysql_plugin.Common.{
  ℕ, ◌+◌, ◌/◌, ◌≡◌, refl, arith, true, false, Option, none, some, List, [], ◌∷◌, ltb,
}
use devel_mysql_plugin.Median.Sort.{Doubles, IsOrder, insert, sort}
use devel_mysql_plugin.Median.Udf.{
  int_result, Allocation, Udf, my_median_init, my_median_deinit, my_median_clear, my_median_add,
  my_median, middle, is_numeric, allocate,
}
use devel_mysql_plugin.Median.Groups.{values, add_all, group, Gives, group_median}
use devel_mysql_plugin.Median.Memory.{
  Call, clear_call, add_call, result_call, reset_call, calls, lifetime,
}
use devel_mysql_plugin.Median.Linux.{State, real_cell, other_cell, doubles}
use devel_mysql_plugin.Median.Linux.Life
use devel_mysql_plugin.Median.Linux.Life.{linux_lifetime}
use devel_mysql_plugin.Median.Linux
use devel_mysql_plugin.Median.Count.{count}
use devel_mysql_plugin.Median.Bag.{SameItems, IsLinear, bag_median}
use devel_mysql_plugin.Median.Bag.Versions.{shown, mac_null, linux_null, group_bag, versions_agree}
use mathlib.Core.Quot
use native.Mathlib.Nat.{ℕ_set}

abbrev naturals : Doubles
naturals = record { Double = ℕ; nought = 0; lt = ltb; add = λ a b. a + b; halve = λ a. a / 2 }

naturals-IsOrder : IsOrder naturals
naturals-IsOrder = record {
  irreflexive = λ x. ground arith;
  transitive = λ x y z p q. ground (arith, p, q);
}

naturals-IsLinear : IsLinear naturals
naturals-IsLinear = record { linear = λ x y p q. ground (arith, p, q); is_set = ℕ_set }

-- The state that a group of 9 and 1 left behind.
abbrev used : Udf naturals
used = record {
  ptr = some (1 ∷ 9 ∷ []);
  maybe_null = true;
  const_item = false;
  is_null = false;
  live = 2;
}

abbrev unused : Udf naturals
unused = record { ptr = none; maybe_null = false; const_item = false; is_null = false; live = 0 }

abbrev rows : List (Option ℕ)
rows = some 8 ∷ none ∷ some 2 ∷ some 6 ∷ some 4 ∷ []

-- The middle values of 8, 2, 6, 4 are 4 and 6.
group_run : group naturals rows used ≡ some (5, record used { ptr = some (2 ∷ 4 ∷ 6 ∷ 8 ∷ []) })
unfolding group add_all my_median_clear my_median_add my_median middle sort insert
group_run = refl

group_median_example :
    Gives naturals naturals-IsOrder
      (values naturals rows)
      (record used { is_null = false })
      (group naturals rows used)
group_median_example = group_median naturals naturals-IsOrder rows used (1 ∷ 9 ∷ []) refl

abbrev plenty : Allocation
plenty = record { context_ok = true; vector_ok = true }

init_succeeds : (my_median_init naturals plenty (int_result ∷ []) unused).failed ≡ false
unfolding my_median_init allocate is_numeric
init_succeeds = refl

abbrev some_calls : List (Call naturals)
some_calls = clear_call ∷ result_call ∷ reset_call (some 3) ∷ add_call (some 1) ∷ result_call ∷ []

lifetime_example :
    (v : Udf naturals) × (calls naturals some_calls
        (some (my_median_init naturals plenty (int_result ∷ []) unused).after)
      ≡ some v)
    × ((my_median_deinit naturals v).live ≡ 0)
    × ((my_median_deinit naturals v).ptr ≡ none)
lifetime_example =
    lifetime naturals naturals-IsOrder plenty (int_result ∷ []) unused some_calls init_succeeds

abbrev linux_used : State naturals
linux_used = record { ptr = some (7 ∷ []); is_null = false; live = 1 }

-- The same values in another order.
abbrev shuffled : List (Option ℕ)
shuffled = some 2 ∷ some 4 ∷ some 6 ∷ none ∷ some 8 ∷ []

same_values : SameItems (values naturals rows) (values naturals shuffled)
unfolding count values
same_values p = omega arith

group_bag_example :
    shown (mac_null naturals naturals-IsOrder naturals-IsLinear) (group naturals rows used)
    ≡ some (bag_median naturals naturals-IsOrder naturals-IsLinear (Quot.mk (values naturals rows)))
group_bag_example =
    group_bag naturals naturals-IsOrder naturals-IsLinear rows used (1 ∷ 9 ∷ []) refl

versions_agree_example :
    shown (mac_null naturals naturals-IsOrder naturals-IsLinear) (group naturals rows used)
    ≡ shown
        (linux_null naturals naturals-IsOrder naturals-IsLinear)
        (Linux.group naturals (λ bits. bits) (doubles naturals (λ bits. bits) shuffled) linux_used)
versions_agree_example =
    versions_agree naturals naturals-IsOrder naturals-IsLinear (λ bits. bits) rows shuffled used
      linux_used (1 ∷ 9 ∷ []) (7 ∷ []) same_values refl refl refl

-- A column of integers: their bytes are read as doubles.
abbrev linux_calls : List (Life.Call naturals (λ bits. bits + 100))
linux_calls =
    Life.clear_call
    ∷ Life.add_call (some (other_cell 3))
    ∷ Life.add_call none
    ∷ Life.result_call
    ∷ Life.add_call (some (other_cell 2))
    ∷ []

abbrev linux_unused : State naturals
linux_unused = record { ptr = none; is_null = false; live = 0 }

linux_taken : (Linux.my_median_init naturals 1 linux_unused).0 ≡ false
unfolding Linux.my_median_init
linux_taken = refl

linux_lifetime_example :
    (t : State naturals) × (Life.calls naturals
        (λ bits. bits + 100)
        linux_calls
        (some (Linux.my_median_init naturals 1 linux_unused).1)
      ≡ some t)
    × (t.ptr ≡ some (Life.kept_by naturals (λ bits. bits + 100) linux_calls []))
    × ((Linux.my_median_deinit naturals t).live ≡ 0)
linux_lifetime_example =
    linux_lifetime naturals (λ bits. bits + 100) naturals-IsOrder 1 linux_unused linux_calls
      linux_taken
