-- ===== src/Median/Linux.antt =====
-- The functions of Source/03_Median/Linux/median.cpp, which keep a bare vector. They convert no
-- argument: the bytes behind `args[0]` are read as a double whatever their type. `new` throws where
-- there is no memory, which is not modelled.
pub mod Life
use mathlib.Core.List.{append_assoc, append-nil}
use devel_mysql_plugin.Common.{
  ℕ, ◌+◌, ◌-◌, ◌≡◌, ◌⊎◌, inl, inr, refl, ap, sym, subst, ◌∙◌, arith, Bool, true, false, Option,
  none, some, List, [], ◌∷◌, ◌++◌, ◌==◌, if◌then◌else◌,
}
use devel_mysql_plugin.Median.Sort.{Doubles, IsOrder, sort}
use devel_mysql_plugin.Median.Udf.{middle}
use devel_mysql_plugin.Median.Count.{IsMedian}
use devel_mysql_plugin.Median.Middle.{middle-IsMedian}
use devel_mysql_plugin.Median.Groups.{values}

-- Eight bytes that are a double, or that are something else.
pub data Cell (A : Type 0) : Type 0 where
  real_cell : A → Cell A
  other_cell : ℕ → Cell A

module _ (d : Doubles) where
  open d use {Double, nought}

  -- `initid->ptr` by the values of its vector, the flag behind `is_null`, and the number of vectors
  -- that are allocated.
  pub record State : Type 0 where
    pub ptr : Option (List Double)
    pub is_null : Bool
    pub live : ℕ

  -- Whether it failed, and the state.
  unfoldable pub my_median_init : ℕ → State → Bool × State
  my_median_init arg_count s =
      if arg_count == 1 then (false, record s { ptr = some []; live = s.live + 1 }) else (true, s)

  abbrev pub clear_values : State → Option (List Double) → Option State
  clear_values s none = none
  clear_values s (some vs) = some (record s { ptr = some [] })

  unfoldable pub my_median_clear : State → Option State
  my_median_clear s = clear_values s s.ptr

  abbrev pub answer : State → List Double → Option Double → Option (Double × State)
  answer s v none = none
  answer s v (some r) = some (r, record s { ptr = some v })

  abbrev pub evaluate : State → Option (List Double) → Option (Double × State)
  evaluate s none = none
  evaluate s (some []) = some (nought, record s { is_null = true })
  evaluate s (some (x ∷ xs)) = let v = sort d (x ∷ xs) in answer s v (middle d v)

  unfoldable pub my_median : State → Option (Double × State)
  my_median s = evaluate s s.ptr

  -- `delete` leaves the pointer as it was, and takes a null one.
  abbrev pub release : State → Option (List Double) → State
  release s none = s
  release s (some vs) = record s { live = s.live - 1 }

  unfoldable pub my_median_deinit : State → State
  my_median_deinit s = release s s.ptr

  module _ (of_bits : ℕ → Double) where
    -- `*(double*)`.
    unfoldable pub as_double : Cell Double → Double
    as_double (real_cell x) = x
    as_double (other_cell bits) = of_bits bits

    abbrev pub push_back : State → Double → Option (List Double) → Option State
    push_back s x none = none
    push_back s x (some vs) = some (record s { ptr = some (vs ++ x ∷ []) })

    unfoldable pub my_median_add : Option (Cell Double) → State → Option State
    my_median_add none s = some s
    my_median_add (some c) s = push_back s (as_double c) s.ptr

    abbrev pub then_add : Option (Cell Double) → Option State → Option State
    then_add row none = none
    then_add row (some s) = my_median_add row s

    unfoldable pub add_all : List (Option (Cell Double)) → Option State → Option State
    add_all [] s = s
    add_all (row ∷ rows) s = add_all rows (then_add row s)

    abbrev pub ask : Option State → Option (Double × State)
    ask none = none
    ask (some s) = my_median s

    unfoldable pub group : List (Option (Cell Double)) → State → Option (Double × State)
    group rows s = ask (add_all rows (my_median_clear s))

    -- Rows of doubles, as the server gives them.
    unfoldable pub doubles : List (Option Double) → List (Option (Cell Double))
    doubles [] = []
    doubles (none ∷ rows) = none ∷ doubles rows
    doubles (some x ∷ rows) = some (real_cell x) ∷ doubles rows

    abbrev pub holding : List Double → State → State
    holding vs s = record s { ptr = some vs }

    add_all-holding :
        (rows : List (Option Double)) (vs : List Double) (s : State)
        → add_all (doubles rows) (some (holding vs s)) ≡ some (holding (vs ++ values d rows) s)
    unfolding add_all doubles values my_median_add as_double
    add_all-holding [] vs s = ap (λ ws. some (holding ws s)) (sym (append-nil vs))
    add_all-holding (none ∷ rows) vs s = add_all-holding rows vs s
    add_all-holding (some x ∷ rows) vs s =
        add_all-holding rows (vs ++ x ∷ []) s
        ∙ ap (λ ws. some (holding ws s)) (append_assoc vs (x ∷ []) (values d rows))

    clear-holding :
        (s : State) (vs : List Double) → s.ptr ≡ some vs → my_median_clear s ≡ some (holding [] s)
    unfolding my_median_clear
    clear-holding s vs e = rw e refl

    pub group_run :
        (rows : List (Option Double)) (s : State) (vs : List Double)
        → s.ptr ≡ some vs
        → group (doubles rows) s ≡ my_median (holding (values d rows) s)
    unfolding group
    group_run rows s vs e =
        ap (λ t. ask (add_all (doubles rows) t)) (clear-holding s vs e)
        ∙ ap ask (add_all-holding rows [] s)

    module _ (o : IsOrder d) where
      -- What a group of the values `xs` gives from the state `s`.
      unfoldable pub Gives : List Double → State → Option (Double × State) → Type 0
      Gives xs s res =
          (r : Double) × (after : State) × (res ≡ some (r, after))
          × (after.live ≡ s.live)
          × (after.ptr ≡ some (sort d xs))
          × (((xs ≡ []) × (after.is_null ≡ true) × (r ≡ nought))
              ⊎ ((after.is_null ≡ s.is_null) × IsMedian d xs r))

      my_median-Gives : (xs : List Double) (s : State) → Gives xs s (my_median (holding xs s))
      unfolding Gives my_median sort
      my_median-Gives [] s = (
        nought,
        holding [] (record s { is_null = true }),
        refl,
        refl,
        refl,
        inl (refl, refl, refl),
      )
      my_median-Gives (x ∷ xs) s =
          let (r, e, med) = middle-IsMedian d o (x ∷ xs) (omega arith) in
          (
            r,
            holding (sort d (x ∷ xs)) s,
            ap (answer s (sort d (x ∷ xs))) e,
            refl,
            refl,
            inr (refl, med),
          )

      -- On rows that the server gives as doubles, a group without a value gives NULL, and one with
      -- values gives a median of them, whatever values an earlier group left behind. With values the
      -- flag for NULL is left as the server passed it.
      pub linux_group_median :
          (rows : List (Option Double)) (s : State) (vs : List Double)
          → s.ptr ≡ some vs
          → Gives (values d rows) s (group (doubles rows) s)
      linux_group_median rows s vs e =
          subst (Gives (values d rows) s) (sym (group_run rows s vs e))
            (my_median-Gives (values d rows) s)
