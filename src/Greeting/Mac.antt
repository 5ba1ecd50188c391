-- ===== src/Greeting/Mac.antt =====
-- Source/02_HelloWorld_Args/Mac/helloworld_udf.cpp: `helloworld`, whose result stands in a buffer on
-- the heap that the next call replaces.
use devel_mysql_plugin.Common.{
  ℕ, ◌+◌, ◌-◌, ◌%◌, ◌^◌, ℤ, pos, pos_part, ltb_ℤ, wrap_signed, Bool, true, false, Option, none,
  some, List, [], ◌∷◌, ◌++◌, length, take, if◌then◌else◌,
}
use devel_mysql_plugin.Libc.Strings.{codes, c_string, snprintf}

-- enum Item_result.
pub data ItemResult : Type 0 where
  string_result other_result : ItemResult

-- `initid` with what its `ptr` points to, what `length`, `is_null` and `error` point to, and the number
-- of blocks that are allocated.
pub record Greeter : Type 0 where
  pub ptr : Option (List ℕ)
  pub maybe_null : Bool
  pub const_item : Bool
  pub max_length : ℕ
  pub out_length : ℕ
  pub is_null : Bool
  pub error : Bool
  pub live : ℕ

-- What `%.*s` prints for a precision; a negative one counts as none.
unfoldable pub cut : ℤ → List ℕ → List ℕ
cut precision text =
    if ltb_ℤ precision (pos 0) then c_string text else c_string (take (pos_part precision) text)

-- The precision is `(int)n`.
unfoldable pub counted : ℕ → List ℕ → List ℕ
counted n text = cut (wrap_signed (2 ^ 32) (pos n)) text

-- Whether it failed. The list holds the types of the arguments.
unfoldable pub helloworld_init : List ItemResult → Greeter → Bool × Greeter
helloworld_init [] g = (true, g)
helloworld_init (string_result ∷ []) g =
    (false, record g { maybe_null = true; const_item = false; max_length = 300; ptr = none })
helloworld_init (other_result ∷ []) g = (true, g)
helloworld_init (t ∷ t' ∷ types) g = (true, g)

-- `free(initid->ptr)`, if there is a block.
abbrev pub freed : Greeter → Option (List ℕ) → Greeter
freed g none = g
freed g (some block) = record g { live = g.live - 1 }

unfoldable pub greeting : List ℕ → List ℕ
greeting name = codes "Welcome " ++ counted (length name) name ++ codes ", HelloWorld Mysql Plugin"

unfoldable pub buf_len : List ℕ → ℕ
buf_len name = (8 + length name + 25 + 1) % 2 ^ 64

-- What follows `free`, by whether `malloc` succeeds.
unfoldable pub allocate : Bool → List ℕ → Greeter → Option (List ℕ) × Greeter
allocate false name g = (none, record g { ptr = none; error = true })
allocate true name g =
    let block = snprintf (buf_len name) (greeting name) in
    (
      some block,
      record g { ptr = some block; out_length = length (greeting name); live = g.live + 1 },
    )

-- The result, `none` for a null pointer. The argument is its bytes, or `none` for SQL's NULL.
unfoldable pub helloworld : Bool → Option (List ℕ) → Greeter → Option (List ℕ) × Greeter
helloworld malloc_ok none g = (none, record g { is_null = true })
helloworld malloc_ok (some name) g = allocate malloc_ok name (freed g g.ptr)

unfoldable pub helloworld_deinit : Greeter → Greeter
helloworld_deinit g = record (freed g g.ptr) { ptr = none }
