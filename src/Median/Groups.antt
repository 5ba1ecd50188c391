-- ===== src/Median/Groups.antt =====
-- A group of rows: the server clears the aggregate, adds each row and asks for the result.
use mathlib.Core.List.{append_assoc, append-nil}
use devel_mysql_plugin.Common.{
  ◌≡◌, ◌⊎◌, inl, inr, refl, ap, sym, ◌∙◌, arith, true, false, subst, Option, none, some, List, [],
  ◌∷◌, ◌++◌,
}
use devel_mysql_plugin.Median.Sort.{Doubles, IsOrder, sort}
use devel_mysql_plugin.Median.Udf.{Udf, my_median_clear, my_median_add, my_median, answer, then_add}
use devel_mysql_plugin.Median.Count.{IsMedian}
use devel_mysql_plugin.Median.Middle.{middle-IsMedian}

module _ (d : Doubles) where
  open d use {Double, nought}

  -- The values of the rows that are not NULL.
  unfoldable pub values : List (Option Double) → List Double
  values [] = []
  values (none ∷ rows) = values rows
  values (some x ∷ rows) = x ∷ values rows

  unfoldable pub add_all : List (Option Double) → Option (Udf d) → Option (Udf d)
  add_all [] u = u
  add_all (row ∷ rows) u = add_all rows (then_add d row u)

  abbrev pub ask : Option (Udf d) → Option (Double × Udf d)
  ask none = none
  ask (some u) = my_median d u

  unfoldable pub group : List (Option Double) → Udf d → Option (Double × Udf d)
  group rows u = ask (add_all rows (my_median_clear d u))

  abbrev pub holding : List Double → Udf d → Udf d
  holding vs u = record u { ptr = some vs }

  add_all-holding :
      (rows : List (Option Double)) (vs : List Double) (u : Udf d)
      → add_all rows (some (holding vs u)) ≡ some (holding (vs ++ values rows) u)
  unfolding add_all values my_median_add
  add_all-holding [] vs u = ap (λ ws. some (holding ws u)) (sym (append-nil vs))
  add_all-holding (none ∷ rows) vs u = add_all-holding rows vs u
  add_all-holding (some x ∷ rows) vs u =
      add_all-holding rows (vs ++ x ∷ []) u
      ∙ ap (λ ws. some (holding ws u)) (append_assoc vs (x ∷ []) (values rows))

  clear-holding :
      (u : Udf d) (vs : List Double)
      → u.ptr ≡ some vs
      → my_median_clear d u ≡ some (holding [] (record u { is_null = false }))
  unfolding my_median_clear
  clear-holding u vs e = rw e refl

  pub group_run :
      (rows : List (Option Double)) (u : Udf d) (vs : List Double)
      → u.ptr ≡ some vs
      → group rows u ≡ my_median d (holding (values rows) (record u { is_null = false }))
  unfolding group
  group_run rows u vs e =
      ap (λ s. ask (add_all rows s)) (clear-holding u vs e)
      ∙ ap ask (add_all-holding rows [] (record u { is_null = false }))

  module _ (o : IsOrder d) where
    -- What a group of `xs` gives from the state `u`.
    unfoldable pub Gives : List Double → Udf d → Option (Double × Udf d) → Type 0
    Gives xs u res =
        (r : Double) × (after : Udf d) × (res ≡ some (r, after))
        × (after.live ≡ u.live)
        × (after.ptr ≡ some (sort d xs))
        × (((xs ≡ []) × (after.is_null ≡ true) × (r ≡ nought))
            ⊎ ((after.is_null ≡ u.is_null) × IsMedian d xs r))

    my_median-Gives : (xs : List Double) (u : Udf d) → Gives xs u (my_median d (holding xs u))
    unfolding Gives my_median sort
    my_median-Gives [] u =
        (nought, holding [] (record u { is_null = true }), refl, refl, refl, inl (refl, refl, refl))
    my_median-Gives (x ∷ xs) u =
        let (r, e, med) = middle-IsMedian d o (x ∷ xs) (omega arith) in
        (
          r,
          holding (sort d (x ∷ xs)) u,
          ap (answer d u (sort d (x ∷ xs))) e,
          refl,
          refl,
          inr (refl, med),
        )

    -- From any state with a context, whatever values an earlier group left in it, a group of rows
    -- gives NULL if all its rows are NULL, and otherwise a result that is not NULL and is a median of
    -- the values of its rows that are not NULL, by their ranks. The context is left with those
    -- values, and no memory is got or given back.
    pub group_median :
        (rows : List (Option Double)) (u : Udf d) (vs : List Double)
        → u.ptr ≡ some vs
        → Gives (values rows) (record u { is_null = false }) (group rows u)
    group_median rows u vs e =
        subst (Gives (values rows) (record u { is_null = false })) (sym (group_run rows u vs e))
          (my_median-Gives (values rows) (record u { is_null = false }))
