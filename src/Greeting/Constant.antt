-- ===== src/Greeting/Constant.antt =====
-- The greetings of Source/01_HelloWorld that take no argument: Mac/helloworld_udf.cpp, which writes to
-- the buffer `result` of the server, and Linux/udf_hello_world.cpp, which returns a literal. Their
-- `deinit` functions are empty.
use devel_mysql_plugin.Common.{
  ℕ, zero, suc, ◌≤◌, ◌<◌, ◌≡◌, ap, refl, arith, Bool, true, false, Option, none, some, List, [],
  ◌∷◌, ◌++◌, length, take,
}
use devel_mysql_plugin.Libc.Strings.{codes}

-- The members of `initid` that the Mac version sets, and what `message` holds.
pub record Constant : Type 0 where
  pub maybe_null : Bool
  pub const_item : Bool
  pub max_length : ℕ
  pub message : List ℕ

-- Whether it failed, by `args->arg_count`.
unfoldable pub constant_helloworld_init : ℕ → Constant → Bool × Constant
constant_helloworld_init zero c =
    (false, record c { maybe_null = false; const_item = true; max_length = 29 })
constant_helloworld_init (suc n) c =
    (true, record c { message = codes "helloworld() requires no arguments" })

abbrev pub msg : List ℕ
msg = codes "Hello World Mysql Plugin-UDF"

-- `memcpy` to a buffer; `none` is a write past its end.
unfoldable pub memcpy : List ℕ → List ℕ → Option (List ℕ)
memcpy [] buffer = some buffer
memcpy (c ∷ s) [] = none
memcpy (c ∷ s) (b ∷ buffer) = elim (memcpy s buffer) [ none ↦ none | some rest ↦ some (c ∷ rest) ]

abbrev pub with_length : ℕ → Option (List ℕ) → Option (List ℕ × ℕ)
with_length n none = none
with_length n (some buffer) = some (buffer, n)

-- The buffer after the call, and what `length` points to.
unfoldable pub constant_helloworld : List ℕ → Option (List ℕ × ℕ)
constant_helloworld result = with_length (length msg) (memcpy msg result)

-- Whether it failed; it looks at nothing.
unfoldable pub constant_hello_world_init : Bool
constant_hello_world_init = false

-- The literal, and what `length` points to.
unfoldable pub constant_hello_world : List ℕ × ℕ
constant_hello_world = (codes "Hello World from UDF!", length (codes "Hello World from UDF!"))

-- A copy that fits goes through, and keeps what lies behind it.
memcpy_fits :
    (s buffer : List ℕ)
    → length s ≤ length buffer
    → (rest : List ℕ) × (memcpy s buffer ≡ some (s ++ rest)) × (length (s ++ rest) ≡ length buffer)
unfolding memcpy
memcpy_fits [] buffer h = (buffer, refl, refl)
memcpy_fits (c ∷ s) [] h = absurd (omega arith)
memcpy_fits (c ∷ s) (b ∷ buffer) h =
    let (rest, e, same) = memcpy_fits s buffer (omega arith) in
    (rest, rw e refl, ap (λ n. suc n) same)

-- On Mac a call is admitted just if it has no argument. Then the result, in a buffer of at least the
-- declared `max_length`, is the greeting by its length, it leaves room for a terminator, the buffer
-- is as large as before, and nothing is written past its end.
constant_helloworld_lem :
    (arg_count : ℕ) (c : Constant) (result : List ℕ)
    → (constant_helloworld_init arg_count c).0 ≡ false
    → (constant_helloworld_init arg_count c).1.max_length ≤ length result
    → (arg_count ≡ 0)
      × (after : List ℕ) × (n : ℕ) × (constant_helloworld result ≡ some (after, n))
      × (take n after ≡ codes "Hello World Mysql Plugin-UDF")
      × (length after ≡ length result)
      × (n < (constant_helloworld_init arg_count c).1.max_length)
unfolding constant_helloworld_init constant_helloworld
constant_helloworld_lem zero c result ok room =
    let (rest, e, same) = memcpy_fits msg result (omega arith) in
    (refl, msg ++ rest, length msg, ap (with_length (length msg)) e, refl, same, omega arith)
constant_helloworld_lem (suc n) c result failed room = absurd (ground (arith, failed))
