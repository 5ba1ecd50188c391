-- ===== src/Parquet/Mac/Row.antt =====
-- `ha_parquet::fill_row` of Source/05_ReadParquet/Mac/ha_parquet.cc, its loops by their indices.
use mathlib.Core.Path.{ap₂}
use native.Mathlib.Decide.{dec_lt}
use devel_mysql_plugin.Common.{
  ℕ, zero, suc, ◌+◌, ◌-◌, ◌≡◌, ◌∙◌, ap, refl, arith, true, false, Option, none, some, List, [], ◌∷◌,
  ltb, leb, get_elem?, get_elem?_past, get_elem?_below, length, if◌then◌else◌,
}
use devel_mysql_plugin.Parquet.HaError.{HaError, success}
use devel_mysql_plugin.Parquet.Arrow.{Array, ChunkedArray, ArrowTable}
use devel_mysql_plugin.Parquet.Mac.Values.{mac_store_value, mac_store_value-store_value}
use devel_mysql_plugin.Parquet.Row.{
  FieldCall, set_null, set_notnull, TableShare, RowBuffer, locate, store_cell, fill_field,
  fill_fields, fill_row,
}

-- A round of the loop over the chunks; `later` is what the rounds that follow find. A chunk beyond the
-- last one is never asked for.
abbrev pub try_chunk : Option Array → ℕ → (ℕ → Option (Array × ℕ)) → Option (Array × ℕ)
try_chunk none remaining later = none
try_chunk (some candidate) remaining later =
    if ltb remaining candidate.length
    then some (candidate, remaining)
    else later (remaining - candidate.length)

-- The loop over the chunks from `c` on, with `left` of them to go: `arr` and `arr_offset`.
unfoldable pub find_chunk : ChunkedArray → ℕ → ℕ → ℕ → Option (Array × ℕ)
find_chunk chunked c zero remaining = none
find_chunk chunked c (suc left) remaining =
    try_chunk (get_elem? chunked c) remaining (λ r. find_chunk chunked (c + 1) left r)

-- What follows the search, and what a null value gives.
abbrev pub convert : Option (Array × ℕ) → List FieldCall
convert none = set_null ∷ []
convert (some (arr, arr_offset)) =
    if arr.is_null arr_offset
    then set_null ∷ []
    else set_notnull ∷ mac_store_value arr.values arr_offset ∷ []

-- A column, which is there, for its number has been tested.
abbrev pub convert_column : Option ChunkedArray → ℕ → List FieldCall
convert_column none row_idx = []
convert_column (some chunked) row_idx = convert (find_chunk chunked 0 (length chunked) row_idx)

-- The body of the loop over the fields.
unfoldable pub mac_fill_field : ArrowTable → ℕ → ℕ → List FieldCall
mac_fill_field t row_idx col =
    if leb (length t.columns) col
    then set_null ∷ []
    else convert_column (get_elem? t.columns col) row_idx

-- The loop from field `col` on, with `left` fields to go.
unfoldable pub mac_fill_fields : ArrowTable → ℕ → ℕ → ℕ → List (List FieldCall)
mac_fill_fields t row_idx col zero = []
mac_fill_fields t row_idx col (suc left) =
    mac_fill_field t row_idx col ∷ mac_fill_fields t row_idx (col + 1) left

unfoldable pub mac_fill_row : TableShare → ArrowTable → ℕ → HaError × RowBuffer
mac_fill_row s t row_idx =
    (success, record { zeroed = s.null_bytes; calls = mac_fill_fields t row_idx 0 s.fields })

-- The loops by index do what the recursions on the lists do.
try_chunk_same :
    (o : Option Array) (r : ℕ) (f g : ℕ → Option (Array × ℕ))
    → ((x : ℕ) → f x ≡ g x)
    → try_chunk o r f ≡ try_chunk o r g
try_chunk_same none r f g h = refl
try_chunk_same (some a) r f g h =
    ap (λ x. if ltb r a.length then some (a, r) else x) (h (r - a.length))

get_elem?-next :
    (a : Array) (chunked : ChunkedArray) (c : ℕ)
    → get_elem? (a ∷ chunked) (c + 1) ≡ get_elem? chunked c
get_elem?-next a chunked c =
    let next : c + 1 ≡ suc c = omega arith in ap (get_elem? (a ∷ chunked)) next

find_chunk-cons :
    (a : Array) (chunked : ChunkedArray) (left c r : ℕ)
    → find_chunk (a ∷ chunked) (c + 1) left r ≡ find_chunk chunked c left r
unfolding find_chunk
find_chunk-cons a chunked zero c r = refl
find_chunk-cons a chunked (suc left) c r =
    ap (λ o. try_chunk o r (λ x. find_chunk (a ∷ chunked) (c + 1 + 1) left x))
      (get_elem?-next a chunked c)
    ∙ try_chunk_same (get_elem? chunked c) r (λ x. find_chunk (a ∷ chunked) (c + 1 + 1) left x)
        (λ x. find_chunk chunked (c + 1) left x) (find_chunk-cons a chunked left (c + 1))

find_chunk-locate :
    (chunked : ChunkedArray) (r : ℕ) → find_chunk chunked 0 (length chunked) r ≡ locate chunked r
unfolding find_chunk locate
find_chunk-locate [] r = refl
find_chunk-locate (a ∷ chunked) r =
    ap (λ x. if ltb r a.length then some (a, r) else x)
      (find_chunk-cons a chunked (length chunked) 0 (r - a.length)
        ∙ find_chunk-locate chunked (r - a.length))

convert-store_cell : (place : Option (Array × ℕ)) → convert place ≡ store_cell place
unfolding store_cell
convert-store_cell none = refl
convert-store_cell (some (arr, i)) =
    ap (λ call. if arr.is_null i then set_null ∷ [] else set_notnull ∷ call ∷ [])
      (mac_store_value-store_value arr.values i)

mac_fill_field-fill_field :
    (t : ArrowTable) (row col : ℕ)
    → mac_fill_field t row col ≡ fill_field (get_elem? t.columns col) row
unfolding mac_fill_field fill_field
mac_fill_field-fill_field t row col = elim (dec_lt col (length t.columns)) [
  | yes lt ↦
      let (c, e) = get_elem?_below t.columns col lt in
      let inside : leb (length t.columns) col ≡ false = ground arith in
      let same : convert_column (some c) row ≡ store_cell (locate c row) =
        ap convert (find_chunk-locate c row) ∙ convert-store_cell (locate c row) in
      rw (inside, e) same
  | no ge ↦
      let outside : leb (length t.columns) col ≡ true = ground arith in
      rw (outside, get_elem?_past t.columns col (omega arith)) refl
]

mac_fill_fields-fill_fields :
    (t : ArrowTable) (row col left : ℕ)
    → mac_fill_fields t row col left ≡ fill_fields t row col left
unfolding mac_fill_fields fill_fields
mac_fill_fields-fill_fields t row col zero = refl
mac_fill_fields-fill_fields t row col (suc left) =
    ap₂ ◌∷◌ (mac_fill_field-fill_field t row col) (mac_fill_fields-fill_fields t row (col + 1) left)

-- The two engines fill a row alike.
pub mac_fill_row-fill_row :
    (s : TableShare) (t : ArrowTable) (row : ℕ) → mac_fill_row s t row ≡ fill_row s t row
unfolding mac_fill_row fill_row
mac_fill_row-fill_row s t row =
    ap (λ calls. (success, record { zeroed = s.null_bytes; calls = calls }))
      (mac_fill_fields-fill_fields t row 0 s.fields)
