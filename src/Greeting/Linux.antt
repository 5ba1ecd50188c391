-- ===== src/Greeting/Linux.antt =====
-- Source/02_HelloWorld_Args/Linux/udf_hello_world_args.cpp: `hello_world`, whose result stands in the
-- buffer `result` of the server.
use devel_mysql_plugin.Common.{
  ℕ, Option, none, some, Bool, true, false, List, [], ◌∷◌, ◌++◌, length,
}
use devel_mysql_plugin.Libc.Strings.{codes}
use devel_mysql_plugin.Greeting.Mac.{ItemResult, string_result, other_result, counted}

-- Whether it failed, and `max_length` if it did not.
unfoldable pub hello_world_init : List ItemResult → ℕ → Bool × ℕ
hello_world_init [] max_length = (true, max_length)
hello_world_init (string_result ∷ []) max_length = (false, 255)
hello_world_init (other_result ∷ []) max_length = (true, max_length)
hello_world_init (t ∷ t' ∷ types) max_length = (true, max_length)

abbrev pub usage_text : List ℕ
usage_text = codes "Usage: hello_world('string')"

-- What is written to `result` before the terminator, for the argument's bytes, and what `is_null`
-- points to, which is given as it was. The text has no NUL bytes, so that its length is what `length`
-- points to. SQL's NULL is a null pointer, which is not tested; `sprintf` is undefined for it, and the
-- outcome `none`.
abbrev pub greet : Option (List ℕ) → Option (List ℕ × Bool)
greet none = none
greet (some input) =
    some (codes "Hello World, " ++ (counted (length input) input ++ codes "!"), false)

unfoldable pub hello_world : List ItemResult → Option (List ℕ) → Bool → Option (List ℕ × Bool)
hello_world [] input is_null = some (usage_text, is_null)
hello_world (string_result ∷ []) input is_null = greet input
hello_world (other_result ∷ []) input is_null = some (usage_text, is_null)
hello_world (t ∷ t' ∷ types) input is_null = some (usage_text, is_null)
