-- ===== src/Parquet/Row/Locate.antt =====
-- The search for the chunk is an index into the whole column.
use devel_mysql_plugin.Common.{
  ℕ, zero, suc, ◌+◌, ◌-◌, ◌≤◌, ◌<◌, ◌≡◌, ◌∙◌, ap, refl, some, List, [], ◌∷◌, ◌++◌, arith, length,
  get_elem?, length-append,
}
use native.Mathlib.Decide.{dec_lt}
use devel_mysql_plugin.Parquet.Arrow.{Array, ChunkedArray}
use devel_mysql_plugin.Parquet.Row.{locate}

-- The offsets of a chunk from `i` on, `n` of them.
unfoldable pub offsets : Array → ℕ → ℕ → List (Array × ℕ)
offsets a i zero = []
offsets a i (suc n) = (a, i) ∷ offsets a (suc i) n

-- The column as one list of places.
unfoldable pub places : ChunkedArray → List (Array × ℕ)
unfolding offsets
places [] = []
places (a ∷ chunks) = offsets a 0 a.length ++ places chunks

length-offsets : (a : Array) (i n : ℕ) → length (offsets a i n) ≡ n
unfolding offsets
length-offsets a i zero = refl
length-offsets a i (suc n) = omega (arith, length-offsets a (suc i) n)

get_elem?-offsets :
    (a : Array) (i n j : ℕ) (rest : List (Array × ℕ))
    → j < n
    → get_elem? (offsets a i n ++ rest) j ≡ some (a, i + j)
unfolding offsets
get_elem?-offsets a i zero j rest h = absurd (omega arith)
get_elem?-offsets a i (suc n) zero rest h = ap (λ k. some (a, k)) (omega arith)
get_elem?-offsets a i (suc n) (suc j) rest h =
    get_elem?-offsets a (suc i) n j rest (omega arith) ∙ ap (λ k. some (a, k)) (omega arith)

get_elem?-skip :
    (a : Array) (i n j : ℕ) (rest : List (Array × ℕ))
    → n ≤ j
    → get_elem? (offsets a i n ++ rest) j ≡ get_elem? rest (j - n)
unfolding offsets
get_elem?-skip a i zero j rest h = ap (get_elem? rest) (omega arith)
get_elem?-skip a i (suc n) zero rest h = absurd (omega arith)
get_elem?-skip a i (suc n) (suc j) rest h =
    get_elem?-skip a (suc i) n j rest (omega arith) ∙ ap (get_elem? rest) (omega arith)

-- Over any chunks, empty ones included, the search finds the place that the row has in the column
-- when its chunks are put together, and nothing past the end.
pub locate-get_elem? :
    (chunks : ChunkedArray) (row : ℕ) → locate chunks row ≡ get_elem? (places chunks) row
unfolding locate places
locate-get_elem? [] row = refl
locate-get_elem? (a ∷ chunks) row = elim (dec_lt row a.length) [
  | yes lt ↦ ground (arith, get_elem?-offsets a 0 a.length row (places chunks))
  | no ge ↦ ground (
    arith,
    get_elem?-skip a 0 a.length row (places chunks),
    locate-get_elem? chunks (row - a.length),
  )
]

pub length-places :
    (a : Array) (chunks : ChunkedArray)
    → length (places (a ∷ chunks)) ≡ a.length + length (places chunks)
unfolding places
length-places a chunks =
    length-append (offsets a 0 a.length) (places chunks)
    ∙ ap (λ n. n + length (places chunks)) (length-offsets a 0 a.length)
