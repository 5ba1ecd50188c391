-- ===== src/Libc/Strings.antt =====
-- C strings as bytes. A text that a program handles is the bytes of its buffer; what a call reads of
-- it are the bytes before the first NUL.
use Prim.Native.Char.{code}
use Prim.Native.String.{String}
use devel_mysql_plugin.Common.{
  ℕ, zero, suc, ◌-◌, ◌≤◌, ◌≡◌, ◌≢◌, refl, ap, arith, List, [], ◌∷◌, ◌++◌, ◌==◌, if◌then◌else◌,
  length, take,
}

-- The bytes of a literal, which is ASCII.
abbrev pub codes : String → List ℕ
codes String.[] = []
codes (String.◌∷◌ c s) = code c ∷ codes s

-- What `%s` prints, and what `strlen` counts.
unfoldable pub c_string : List ℕ → List ℕ
c_string [] = []
c_string (c ∷ s) = if c == 0 then [] else c ∷ c_string s

-- `snprintf` into a buffer of `size` bytes, size > 0: what the buffer holds before the terminator.
abbrev pub snprintf : ℕ → List ℕ → List ℕ
snprintf size printed = take (size - 1) printed

-- No byte of the text is `b`.
abbrev pub Without : ℕ → List ℕ → Type 0
Without b [] = Unit {0}
Without b (c ∷ s) = (c ≢ b) × Without b s

pub c_string-Without : (s : List ℕ) → Without 0 (c_string s)
unfolding c_string
c_string-Without [] = tt
c_string-Without (c ∷ s) = ground (arith, c_string-Without s)

pub c_string_id : (s : List ℕ) → Without 0 s → c_string s ≡ s
unfolding c_string
c_string_id [] h = refl
c_string_id (c ∷ s) h = ground (arith, c_string_id s h.1)

pub Without-append : (b : ℕ) (s t : List ℕ) → Without b s → Without b t → Without b (s ++ t)
Without-append b [] t h k = k
Without-append b (c ∷ s) t h k = (h.0, Without-append b s t h.1 k)

pub Without-take : (b n : ℕ) (s : List ℕ) → Without b s → Without b (take n s)
Without-take b zero s h = tt
Without-take b (suc n) [] h = tt
Without-take b (suc n) (c ∷ s) h = (h.0, Without-take b n s h.1)

pub length-c_string : (s : List ℕ) → length (c_string s) ≤ length s
unfolding c_string
length-c_string [] = omega arith
length-c_string (c ∷ s) = ground (arith, length-c_string s)

pub take_all : (n : ℕ) (s : List ℕ) → length s ≤ n → take n s ≡ s
take_all zero [] h = refl
take_all zero (c ∷ s) h = absurd (omega arith)
take_all (suc n) [] h = refl
take_all (suc n) (c ∷ s) h = ap (λ r. c ∷ r) (take_all n s (omega arith))
