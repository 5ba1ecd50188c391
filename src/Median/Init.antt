-- ===== src/Median/Init.antt =====
-- Which arguments `init` accepts, and what it leaves where it fails.
use devel_mysql_plugin.Common.{
  ◌≡◌, ◌≢◌, ◌⊎◌, inl, inr, refl, ap, arith, Bool, true, false, ◌&&◌, none, some, List, [], ◌∷◌,
  if◌then◌else◌,
}
use devel_mysql_plugin.Median.Sort.{Doubles}
use devel_mysql_plugin.Median.Udf.{
  ItemResult, Message, real_result, Allocation, Udf, InitResult, refuse,
  requires_a_numeric_argument, is_numeric, allocate, my_median_init,
}

message_given : {m : Message} → some m ≢ none
message_given p = ground (arith, p)

module _ (d : Doubles) where
  -- Exactly one argument of a numeric type, and memory for both blocks.
  unfoldable Accepts : Allocation → List ItemResult → Type 0
  Accepts mem types =
      (t : ItemResult) × (types ≡ t ∷ [])
      × (is_numeric t ≡ true)
      × (mem.context_ok ≡ true)
      × (mem.vector_ok ≡ true)

  -- What `init` is to return, and to leave in the state `u`.
  unfoldable Judges : Allocation → List ItemResult → Udf d → InitResult d → Type 0
  Judges mem types u res =
      ((res.failed ≡ false)
        × Accepts mem types
        × (res.arg_types ≡ real_result ∷ [])
        × (res.after.ptr ≡ some []))
      ⊎ ((res.failed ≡ true) × (¬ Accepts mem types) × (res.message ≢ none) × (res.after ≡ u))

  not_nil : (mem : Allocation) → ¬ Accepts mem []
  unfolding Accepts
  not_nil mem (t, e, numeric, c, v) = ground (arith, e)

  not_two :
      (mem : Allocation) (t t' : ItemResult) (ts : List ItemResult) → ¬ Accepts mem (t ∷ t' ∷ ts)
  unfolding Accepts
  not_two mem t t' ts (t'', e, numeric, c, v) = ground (arith, e)

  not_numeric : (mem : Allocation) (t : ItemResult) → is_numeric t ≡ false → ¬ Accepts mem (t ∷ [])
  unfolding Accepts
  not_numeric mem t h (t', e, numeric, c, v) = ground (arith, e, h, numeric)

  no_memory :
      (mem : Allocation) (types : List ItemResult)
      → (mem.context_ok && mem.vector_ok) ≡ false
      → ¬ Accepts mem types
  unfolding Accepts
  no_memory mem types h (t, e, numeric, c, v) = ground (arith, h, c, v)

  allocate-Judges :
      (context_ok vector_ok : Bool) (t : ItemResult) (u : Udf d)
      → is_numeric t ≡ true
      → Judges
          (record { context_ok = context_ok; vector_ok = vector_ok })
          (t ∷ [])
          u
          (allocate d (record { context_ok = context_ok; vector_ok = vector_ok }) u)
  unfolding Judges Accepts allocate
  allocate-Judges true true t u h = inl (refl, (t, refl, h, refl, refl), refl, refl)
  allocate-Judges true false t u h = inr (
    refl,
    no_memory _ (t ∷ []) refl,
    message_given,
    ap (λ n. record u { live = n }) (omega arith),
  )
  allocate-Judges false vector_ok t u h = inr (refl, no_memory _ (t ∷ []) refl, message_given, refl)

  numeric-Judges :
      (mem : Allocation) (t : ItemResult) (u : Udf d) (c : Bool)
      → is_numeric t ≡ c
      → Judges mem
          (t ∷ [])
          u
          (if c then allocate d mem u else refuse d requires_a_numeric_argument (t ∷ []) u)
  unfolding Judges
  numeric-Judges mem t u true h = allocate-Judges mem.context_ok mem.vector_ok t u h
  numeric-Judges mem t u false h = inr (refl, not_numeric mem t h, message_given, refl)

  -- `init` either succeeds, for exactly one argument that is numeric and with memory for both blocks,
  -- and then asks for a double and an empty context; or it fails with a message, in every other case,
  -- and then nothing is kept: memory, context and flags are as before.
  my_median_init_lem :
      (mem : Allocation) (types : List ItemResult) (u : Udf d)
      → Judges mem types u (my_median_init d mem types u)
  unfolding Judges my_median_init
  my_median_init_lem mem [] u = inr (refl, not_nil mem, message_given, refl)
  my_median_init_lem mem (t ∷ []) u = numeric-Judges mem t u (is_numeric t) refl
  my_median_init_lem mem (t ∷ t' ∷ types) u =
      inr (refl, not_two mem t t' types, message_given, refl)
