-- ===== src/Greeting/Buffers.antt =====
-- What the greetings say, and whether they fit.
use devel_mysql_plugin.Common.{
  Bool, ℕ, ◌+◌, ◌-◌, ◌^◌, ◌≤◌, ◌<◌, ◌≡◌, ◌↔◌, ◌∙◌, ap, arith, pos, wrap_signed, word, signed, true,
  Option, none, some, List, [], ◌∷◌, ◌++◌, length, take, length-append,
}
use devel_mysql_plugin.Libc.Strings.{codes, c_string, Without, c_string_id, take_all}
use devel_mysql_plugin.Greeting.Mac.{
  string_result, Greeter, cut, counted, greeting, buf_len, allocate, helloworld,
}
use devel_mysql_plugin.Greeting.Linux.{hello_world}

cut_pos : (n : ℕ) (text : List ℕ) → cut (pos n) text ≡ c_string (take n text)
unfolding cut
cut_pos n text = ground arith

int_of : (n : ℕ) → n < 2 ^ 31 → wrap_signed (2 ^ 32) (pos n) ≡ pos n
unfolding wrap_signed word signed
int_of n h = ground arith

counted_id :
    (name : List ℕ) → length name < 2 ^ 31 → Without 0 name → counted (length name) name ≡ name
unfolding counted
counted_id name h w =
    ap (λ p. cut p name) (int_of (length name) h)
    ∙ cut_pos (length name) name
    ∙ ap c_string (take_all (length name) name (omega arith))
    ∙ c_string_id name w

abbrev tail : List ℕ
tail = codes ", HelloWorld Mysql Plugin"

greeting_id :
    (name : List ℕ)
    → length name < 2 ^ 31
    → Without 0 name
    → greeting name ≡ codes "Welcome " ++ (name ++ tail)
unfolding greeting
greeting_id name h w = ap (λ s. codes "Welcome " ++ (s ++ tail)) (counted_id name h w)

length-greeting :
    (name : List ℕ)
    → length name < 2 ^ 31
    → Without 0 name
    → length (greeting name) ≡ length name + 33
length-greeting name h w = ap length (greeting_id name h w) ∙ omega (arith, length-append name tail)

-- For a name without NUL bytes and shorter than 2 ^ 31, when there is memory, the result is the
-- greeting with the whole name, the buffer is just large enough for it and its terminator, and
-- `length` is its length.
pub helloworld_lem :
    (name : List ℕ) (g : Greeter)
    → length name < 2 ^ 31
    → Without 0 name
    → ((helloworld true (some name) g).0
        ≡ some (codes "Welcome " ++ (name ++ codes ", HelloWorld Mysql Plugin")))
      × ((helloworld true (some name) g).1.out_length ≡ length name + 33)
      × (buf_len name ≡ (helloworld true (some name) g).1.out_length + 1)
unfolding helloworld allocate buf_len
helloworld_lem name g h w =
    let len = length-greeting name h w in
    let room : length (greeting name) ≤ buf_len name - 1 = omega (arith, len) in
    (
      ap some (take_all (buf_len name - 1) (greeting name) room ∙ greeting_id name h w),
      len,
      omega (arith, len),
    )

-- A call that is defined and stays within a buffer of `size` bytes, with the terminator.
unfoldable pub FitsIn : ℕ → Option (List ℕ × Bool) → Type 0
FitsIn size none = ⊥
FitsIn size (some (text, is_null)) = length text + 1 ≤ size

-- For one argument that is a string, and a name without NUL bytes and shorter than 2 ^ 31, the call is
-- defined and the text that is written to the server's buffer, with its terminator, fits into `size`
-- bytes exactly if the name is at least fifteen bytes shorter. For NULL the call is undefined.
pub hello_world_fits_iff :
    (name : List ℕ) (is_null : Bool) (size : ℕ)
    → length name < 2 ^ 31
    → Without 0 name
    → (FitsIn size (hello_world (string_result ∷ []) (some name) is_null)
        ↔ (length name + 15 ≤ size))
      × ¬ FitsIn size (hello_world (string_result ∷ []) none is_null)
unfolding hello_world FitsIn
hello_world_fits_iff name is_null size h w =
    let len : length (counted (length name) name ++ codes "!") ≡ length name + 1 =
      length-append (counted (length name) name) (codes "!")
      ∙ ap (λ s. length s + 1) (counted_id name h w) in
    (((λ p. omega (arith, len, p)), (λ p. omega (arith, len, p))), (λ e. absurd e))
