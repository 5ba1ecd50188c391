-- ===== src/Greeting/Examples.antt =====
-- Runs of the greetings.
use devel_mysql_plugin.Common.{
  ℕ, ◌+◌, ◌≤◌, ◌≡◌, ◌↔◌, refl, arith, Bool, true, false, Option, none, some, List, [], ◌∷◌, ◌++◌,
}
use devel_mysql_plugin.Libc.Strings.{codes, Without}
use devel_mysql_plugin.Greeting.Mac.{
  Greeter, string_result, helloworld_init, helloworld, helloworld_deinit, buf_len,
}
use devel_mysql_plugin.Greeting.Buffers.{helloworld_lem, FitsIn, hello_world_fits_iff}
use devel_mysql_plugin.Greeting.Linux.{hello_world}
use devel_mysql_plugin.Greeting.Heap.{rows, rows-live}
use Prim.{tt}

abbrev fresh : Greeter
fresh = record {
  ptr = none;
  maybe_null = false;
  const_item = false;
  max_length = 0;
  out_length = 0;
  is_null = false;
  error = false;
  live = 7;
}

abbrev name : List ℕ
name = codes "Ada"

name-Without : Without 0 name
name-Without = (ground arith, (ground arith, (ground arith, tt)))

helloworld_lem_example :
    ((helloworld true (some name) fresh).0
      ≡ some (codes "Welcome " ++ (name ++ codes ", HelloWorld Mysql Plugin")))
    × ((helloworld true (some name) fresh).1.out_length ≡ 3 + 33)
    × (buf_len name ≡ (helloworld true (some name) fresh).1.out_length + 1)
helloworld_lem_example = helloworld_lem name fresh (omega arith) name-Without

init_succeeds : (helloworld_init (string_result ∷ []) fresh).0 ≡ false
unfolding helloworld_init
init_succeeds = refl

abbrev calls : List (Bool × Option (List ℕ))
calls = (true, some name) ∷ (false, some name) ∷ (true, none) ∷ (true, some name) ∷ []

rows-live_example :
    ((rows calls (helloworld_init (string_result ∷ []) fresh).1).live ≤ 7 + 1)
    × ((helloworld_deinit (rows calls (helloworld_init (string_result ∷ []) fresh).1)).live ≡ 7)
    × ((helloworld_deinit (rows calls (helloworld_init (string_result ∷ []) fresh).1)).ptr ≡ none)
rows-live_example = rows-live (string_result ∷ []) calls fresh init_succeeds

-- A buffer of 31 bytes.
abbrev result : List ℕ
result = codes "..............................."

-- The buffer of 255 bytes that `hello_world_init` declares.
hello_world_fits_iff_example :
    (FitsIn 255 (hello_world (string_result ∷ []) (some name) true) ↔ (3 + 15 ≤ 255))
    × ¬ FitsIn 255 (hello_world (string_result ∷ []) none true)
hello_world_fits_iff_example = hello_world_fits_iff name true 255 (omega arith) name-Without
