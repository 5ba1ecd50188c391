-- ===== src/Median/Memory.antt =====
-- The memory of an aggregate over its whole life.
use devel_mysql_plugin.Common.{
  ℕ, ◌+◌, ◌≡◌, refl, ap, sym, arith, subst, Bool, true, false, Option, none, some, List, [], ◌∷◌,
  ◌++◌, if◌then◌else◌,
}
use devel_mysql_plugin.Median.Sort.{Doubles, IsOrder, sort}
use devel_mysql_plugin.Median.Udf.{
  ItemResult, Allocation, Udf, refuse, requires_a_numeric_argument, is_numeric, allocate,
  my_median_init, my_median_deinit, my_median_clear, my_median_add, my_median_reset, my_median,
  answer,
}
use devel_mysql_plugin.Median.Middle.{middle-IsMedian}

module _ (d : Doubles) where
  open d use {Double}

  -- The calls that the server makes between `init` and `deinit`, in any order.
  pub data Call : Type 0 where
    clear_call result_call : Call
    reset_call add_call : Option Double → Call

  abbrev pub left_by : Option (Double × Udf d) → Option (Udf d)
  left_by none = none
  left_by (some (r, u)) = some u

  unfoldable pub call : Call → Udf d → Option (Udf d)
  call clear_call u = my_median_clear d u
  call result_call u = left_by (my_median d u)
  call (reset_call row) u = my_median_reset d row u
  call (add_call row) u = my_median_add d row u

  abbrev pub then_call : Call → Option (Udf d) → Option (Udf d)
  then_call c none = none
  then_call c (some u) = call c u

  unfoldable pub calls : List Call → Option (Udf d) → Option (Udf d)
  calls [] u = u
  calls (c ∷ cs) u = calls cs (then_call c u)

  -- A state with a context, and `n` blocks allocated.
  abbrev pub state : List Double → Bool → Bool → Bool → ℕ → Udf d
  state vs maybe_null const_item is_null n = record {
    ptr = some vs;
    maybe_null = maybe_null;
    const_item = const_item;
    is_null = is_null;
    live = n;
  }

  -- A context is there, and `n` blocks are allocated.
  unfoldable pub Holds : ℕ → Option (Udf d) → Type 0
  Holds n res = (vs : List Double) × (m k i : Bool) × (res ≡ some (state vs m k i n))

  module _ (o : IsOrder d) where
    call-Holds :
        (c : Call) (vs : List Double) (m k i : Bool) (n : ℕ) → Holds n (call c (state vs m k i n))
    unfolding Holds call my_median_clear my_median_reset my_median_add my_median
    call-Holds clear_call vs m k i n = ([], m, k, false, refl)
    call-Holds result_call [] m k i n = ([], m, k, true, refl)
    call-Holds result_call (x ∷ xs) m k i n =
        let (r, e, med) = middle-IsMedian d o (x ∷ xs) (omega arith) in
        let v = sort d (x ∷ xs) in
        (v, m, k, i, ap (λ a. left_by (answer d (state (x ∷ xs) m k i n) v a)) e)
    call-Holds (reset_call none) vs m k i n = ([], m, k, false, refl)
    call-Holds (reset_call (some x)) vs m k i n = (x ∷ [], m, k, false, refl)
    call-Holds (add_call none) vs m k i n = (vs, m, k, i, refl)
    call-Holds (add_call (some x)) vs m k i n = (vs ++ x ∷ [], m, k, i, refl)

    calls-Holds :
        (cs : List Call) (n : ℕ) (res : Option (Udf d)) → Holds n res → Holds n (calls cs res)
    unfolding Holds calls
    calls-Holds [] n res h = h
    calls-Holds (c ∷ cs) n res (vs, m, k, i, e) =
        calls-Holds cs n (then_call c res)
          (subst (λ s. Holds n (then_call c s)) (sym e) (call-Holds c vs m k i n))

    allocate-Holds :
        (context_ok vector_ok : Bool) (u : Udf d)
        → (allocate d (record { context_ok = context_ok; vector_ok = vector_ok }) u).failed ≡ false
        → Holds
            (u.live + 2)
            (some (allocate d (record { context_ok = context_ok; vector_ok = vector_ok }) u).after)
    unfolding Holds allocate
    allocate-Holds true true u ok = ([], true, false, u.is_null, refl)
    allocate-Holds true false u ok = absurd (ground arith)
    allocate-Holds false vector_ok u ok = absurd (ground arith)

    numeric-Holds :
        (mem : Allocation) (t : ItemResult) (u : Udf d) (c : Bool)
        → (if c then allocate d mem u else refuse d requires_a_numeric_argument (t ∷ []) u).failed
          ≡ false
        → Holds (u.live + 2) (
            some
              (if c
                then allocate d mem u
                else refuse d requires_a_numeric_argument (t ∷ []) u).after)
    numeric-Holds mem t u true ok = allocate-Holds mem.context_ok mem.vector_ok u ok
    numeric-Holds mem t u false ok = absurd (ground arith)

    init-Holds :
        (mem : Allocation) (types : List ItemResult) (u : Udf d)
        → (my_median_init d mem types u).failed ≡ false
        → Holds (u.live + 2) (some (my_median_init d mem types u).after)
    unfolding my_median_init
    init-Holds mem [] u ok = absurd (ground arith)
    init-Holds mem (t ∷ []) u ok = numeric-Holds mem t u (is_numeric t) ok
    init-Holds mem (t ∷ t' ∷ types) u ok = absurd (ground arith)

    ends :
        (n : ℕ) (res : Option (Udf d))
        → Holds (n + 2) res
        → (v : Udf d) × (res ≡ some v)
          × ((my_median_deinit d v).live ≡ n)
          × ((my_median_deinit d v).ptr ≡ none)
    unfolding Holds my_median_deinit
    ends n res (vs, m, k, i, e) = (state vs m k i (n + 2), e, omega arith, refl)

    -- Once `init` has succeeded, no calls in any order and number read through a null context or out
    -- of the range of the vector, and after `deinit` just as many blocks are allocated as before
    -- `init`, and no context is left.
    pub lifetime :
        (mem : Allocation) (types : List ItemResult) (u : Udf d) (cs : List Call)
        → (my_median_init d mem types u).failed ≡ false
        → (v : Udf d) × (calls cs (some (my_median_init d mem types u).after) ≡ some v)
          × ((my_median_deinit d v).live ≡ u.live)
          × ((my_median_deinit d v).ptr ≡ none)
    lifetime mem types u cs ok =
        ends u.live _ (calls-Holds cs (u.live + 2) _ (init-Holds mem types u ok))
