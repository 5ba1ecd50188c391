-- ===== src/Median/Udf.antt =====
-- The functions of Source/03_Median/Mac/my_median.cpp. Each takes the state that the server keeps for
-- the aggregate; `none` in place of a result stands for a read through a null context. The elements of
-- a vector are read with `get_elem?`, so that `none` also stands for an index out of range.
use devel_mysql_plugin.Common.{
  ℕ, ◌+◌, ◌-◌, ◌/◌, ◌%◌, Bool, true, false, Option, none, some, List, [], ◌∷◌, ◌++◌, length,
  get_elem?, ◌==◌, if◌then◌else◌,
}
use devel_mysql_plugin.Median.Sort.{Doubles, sort}

-- enum Item_result.
pub data ItemResult : Type 0 where
  string_result real_result int_result row_result decimal_result : ItemResult

pub data Message : Type 0 where
  requires_one_argument requires_a_numeric_argument out_of_memory : Message

-- Whether `new` gets memory for the context and for the vector.
pub record Allocation : Type 0 where
  pub context_ok : Bool
  pub vector_ok : Bool

unfoldable pub is_numeric : ItemResult → Bool
is_numeric real_result = true
is_numeric int_result = true
is_numeric decimal_result = true
is_numeric string_result = false
is_numeric row_result = false

module _ (d : Doubles) where
  open d use {Double, nought, add, halve}

  -- `initid`, whose `ptr` is the context by the values it holds, the flag behind `is_null`, and the
  -- number of blocks that are allocated.
  pub record Udf : Type 0 where
    pub ptr : Option (List Double)
    pub maybe_null : Bool
    pub const_item : Bool
    pub is_null : Bool
    pub live : ℕ

  -- `init` returns whether it failed; the argument types may be changed for the server to convert.
  pub record InitResult : Type 0 where
    pub failed : Bool
    pub message : Option Message
    pub arg_types : List ItemResult
    pub after : Udf

  abbrev pub refuse : Message → List ItemResult → Udf → InitResult
  refuse m types u = record { failed = true; message = some m; arg_types = types; after = u }

  -- What follows the tests of the arguments.
  unfoldable pub allocate : Allocation → Udf → InitResult
  allocate mem u =
      if mem.context_ok
      then (if mem.vector_ok
          then record {
            failed = false;
            message = none;
            arg_types = real_result ∷ [];
            after = record u {
              ptr = some [];
              maybe_null = true;
              const_item = false;
              live = u.live + 2;
            };
          }
          else refuse out_of_memory (real_result ∷ []) (record u { live = u.live + 1 - 1 }))
      else refuse out_of_memory (real_result ∷ []) u

  -- `arg_count` is the length of the list of types.
  unfoldable pub my_median_init : Allocation → List ItemResult → Udf → InitResult
  my_median_init mem [] u = refuse requires_one_argument [] u
  my_median_init mem (t ∷ []) u =
      if is_numeric t then allocate mem u else refuse requires_a_numeric_argument (t ∷ []) u
  my_median_init mem (t ∷ t' ∷ types) u = refuse requires_one_argument (t ∷ t' ∷ types) u

  -- `delete ctx->values; delete ctx;`.
  abbrev pub release : Udf → Option (List Double) → Udf
  release u none = u
  release u (some vs) = record u { ptr = none; live = u.live - 1 - 1 }

  unfoldable pub my_median_deinit : Udf → Udf
  my_median_deinit u = release u u.ptr

  abbrev pub clear_values : Udf → Option (List Double) → Option Udf
  clear_values u none = none
  clear_values u (some vs) = some (record u { ptr = some []; is_null = false })

  unfoldable pub my_median_clear : Udf → Option Udf
  my_median_clear u = clear_values u u.ptr

  abbrev pub push_back : Udf → Double → Option (List Double) → Option Udf
  push_back u x none = none
  push_back u x (some vs) = some (record u { ptr = some (vs ++ x ∷ []) })

  -- The argument is a value, or `none` for SQL's NULL.
  unfoldable pub my_median_add : Option Double → Udf → Option Udf
  my_median_add none u = some u
  my_median_add (some x) u = push_back u x u.ptr

  abbrev pub then_add : Option Double → Option Udf → Option Udf
  then_add arg none = none
  then_add arg (some u) = my_median_add arg u

  unfoldable pub my_median_reset : Option Double → Udf → Option Udf
  my_median_reset arg u = then_add arg (my_median_clear u)

  -- The sum of two elements, halved.
  abbrev pub mean : Option Double → Option Double → Option Double
  mean none b = none
  mean (some a) none = none
  mean (some a) (some b) = some (halve (add a b))

  -- The result, from the sorted vector.
  unfoldable pub middle : List Double → Option Double
  middle v =
      let n = length v in
      if n % 2 == 0
      then mean (get_elem? v (n / 2 - 1)) (get_elem? v (n / 2))
      else get_elem? v (n / 2)

  abbrev pub answer : Udf → List Double → Option Double → Option (Double × Udf)
  answer u v none = none
  answer u v (some r) = some (r, record u { ptr = some v })

  abbrev pub evaluate : Udf → Option (List Double) → Option (Double × Udf)
  evaluate u none = none
  evaluate u (some []) = some (nought, record u { is_null = true })
  evaluate u (some (x ∷ xs)) = let v = sort d (x ∷ xs) in answer u v (middle v)

  unfoldable pub my_median : Udf → Option (Double × Udf)
  my_median u = evaluate u u.ptr
