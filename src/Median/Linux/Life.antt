-- ===== src/Median/Linux/Life.antt =====
-- The aggregate of Source/03_Median/Linux/median.cpp from `my_median_init` to `my_median_deinit`, with
-- rows whose bytes are of any type.
use devel_mysql_plugin.Common.{
  ℕ, ◌+◌, ◌≡◌, refl, ap, sym, subst, ◌∙◌, arith, Bool, true, false, Option, none, some, List, [],
  ◌∷◌, ◌++◌, ◌==◌, if◌then◌else◌,
}
use devel_mysql_plugin.Median.Sort.{Doubles, IsOrder, sort}
use devel_mysql_plugin.Median.Middle.{middle-IsMedian}
use devel_mysql_plugin.Median.Linux.{
  Cell, State, my_median_init, my_median_clear, my_median, my_median_add, my_median_deinit, answer,
  as_double,
}

module _ (d : Doubles) (of_bits : ℕ → d.Double) where
  open d use {Double, nought}

  -- The calls that the server makes between `init` and `deinit`, in any order.
  pub data Call : Type 0 where
    clear_call result_call : Call
    add_call : Option (Cell Double) → Call

  abbrev pub left_by : Option (Double × State d) → Option (State d)
  left_by none = none
  left_by (some (r, s)) = some s

  unfoldable pub call : Call → State d → Option (State d)
  call clear_call s = my_median_clear d s
  call result_call s = left_by (my_median d s)
  call (add_call row) s = my_median_add d of_bits row s

  abbrev pub then_call : Call → Option (State d) → Option (State d)
  then_call c none = none
  then_call c (some s) = call c s

  unfoldable pub calls : List Call → Option (State d) → Option (State d)
  calls [] s = s
  calls (c ∷ cs) s = calls cs (then_call c s)

  -- The doubles that the vector is to hold after the calls, in some order: those since the last
  -- `clear`, each read from the bytes of its row, sorted where a result was asked for.
  unfoldable pub kept_by : List Call → List Double → List Double
  kept_by [] vs = vs
  kept_by (clear_call ∷ cs) vs = kept_by cs []
  kept_by (result_call ∷ cs) vs = kept_by cs (sort d vs)
  kept_by (add_call none ∷ cs) vs = kept_by cs vs
  kept_by (add_call (some c) ∷ cs) vs = kept_by cs (vs ++ as_double d of_bits c ∷ [])

  abbrev pub state : List Double → Bool → ℕ → State d
  state vs is_null n = record { ptr = some vs; is_null = is_null; live = n }

  -- A vector with the given values is there, and `n` are allocated.
  unfoldable pub Holds : List Double → ℕ → Option (State d) → Type 0
  Holds vs n res = (i : Bool) × (res ≡ some (state vs i n))

  module _ (o : IsOrder d) where
    result-Holds :
        (vs : List Double) (i : Bool) (n : ℕ)
        → Holds (sort d vs) n (left_by (my_median d (state vs i n)))
    unfolding Holds my_median sort
    result-Holds [] i n = (true, refl)
    result-Holds (x ∷ xs) i n =
        let (r, e, med) = middle-IsMedian d o (x ∷ xs) (omega arith) in
        let v = sort d (x ∷ xs) in (i, ap (λ a. left_by (answer d (state (x ∷ xs) i n) v a)) e)

    calls-Holds :
        (cs : List Call) (vs : List Double) (i : Bool) (n : ℕ)
        → Holds (kept_by cs vs) n (calls cs (some (state vs i n)))
    unfolding Holds calls kept_by call my_median_clear my_median_add
    calls-Holds [] vs i n = (i, refl)
    calls-Holds (clear_call ∷ cs) vs i n = calls-Holds cs [] i n
    calls-Holds (add_call none ∷ cs) vs i n = calls-Holds cs vs i n
    calls-Holds (add_call (some c) ∷ cs) vs i n =
        calls-Holds cs (vs ++ as_double d of_bits c ∷ []) i n
    calls-Holds (result_call ∷ cs) vs i n =
        let (j, e) = result-Holds vs i n in
        subst (λ res. Holds (kept_by cs (sort d vs)) n (calls cs res)) (sym e)
          (calls-Holds cs (sort d vs) j n)

    taken :
        (c : Bool) (s u : State d)
        → let res : Bool × State d = if c then (false, u) else (true, s) in
          res.0 ≡ false → res.1 ≡ u
    taken true s u ok = refl
    taken false s u ok = ground (arith, ok)

    -- Once `init` has succeeded, no calls in any order read through a null pointer or out of the
    -- range of the vector. The vector then holds the values that were added since the last `clear`,
    -- where bytes that are not a double are read as one, sorted where a result was asked for; and
    -- after `deinit` just as many vectors are allocated as before `init`.
    pub linux_lifetime :
        (arg_count : ℕ) (s : State d) (cs : List Call)
        → (my_median_init d arg_count s).0 ≡ false
        → (t : State d) × (calls cs (some (my_median_init d arg_count s).1) ≡ some t)
          × (t.ptr ≡ some (kept_by cs []))
          × ((my_median_deinit d t).live ≡ s.live)
    unfolding Holds my_median_init my_median_deinit
    linux_lifetime arg_count s cs ok =
        let begun = taken (arg_count == 1) s (state [] s.is_null (s.live + 1)) ok in
        let (i, e) = calls-Holds cs [] s.is_null (s.live + 1) in
        (
          state (kept_by cs []) i (s.live + 1),
          ap (λ t. calls cs (some t)) begun ∙ e,
          refl,
          omega arith,
        )
