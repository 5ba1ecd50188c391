-- ===== src/Parquet/Row/Fields.antt =====
-- What each field of a row gets.
use devel_mysql_plugin.Common.{
  ℕ, zero, suc, ◌+◌, ◌<◌, ◌≡◌, ◌∙◌, ap, refl, Option, none, some, arith, length, get_elem?, List,
  [], ◌∷◌, if◌then◌else◌,
}
use devel_mysql_plugin.Parquet.HaError.{success}
use devel_mysql_plugin.Parquet.Arrow.{Values, Array, ChunkedArray, ArrowTable}
use devel_mysql_plugin.Parquet.Row.{
  TableShare, FieldCall, set_null, set_notnull, store_value, store_cell, fill_field, fill_fields,
  fill_row,
}
use devel_mysql_plugin.Parquet.Row.Locate.{places, locate-get_elem?}

-- The place of row `row` in column `col` of a table, if the table has both.
abbrev pub place_in : Option ChunkedArray → ℕ → Option (Array × ℕ)
place_in none row = none
place_in (some chunked) row = get_elem? (places chunked) row

abbrev pub place_of : ArrowTable → ℕ → ℕ → Option (Array × ℕ)
place_of t col row = place_in (get_elem? t.columns col) row

-- The value there, unless Arrow says that it is null.
unfoldable pub present : Option (Array × ℕ) → Option (Values × ℕ)
present none = none
present (some (arr, i)) = if arr.is_null i then none else some (arr.values, i)

-- What a field is to be told: that it is NULL, or that it is not and then one value.
unfoldable pub told : Option (Values × ℕ) → List FieldCall
told none = set_null ∷ []
told (some (v, i)) = set_notnull ∷ store_value v i ∷ []

store_cell-told : (place : Option (Array × ℕ)) → store_cell place ≡ told (present place)
unfolding store_cell present told
store_cell-told none = refl
store_cell-told (some (arr, i)) = ground arith

fill_field-place :
    (c : Option ChunkedArray) (row : ℕ) → fill_field c row ≡ store_cell (place_in c row)
unfolding fill_field store_cell
fill_field-place none row = refl
fill_field-place (some chunked) row = ap store_cell (locate-get_elem? chunked row)

fill_fields-get :
    (t : ArrowTable) (row col left k : ℕ)
    → k < left
    → get_elem? (fill_fields t row col left) k ≡ some (store_cell (place_of t (col + k) row))
unfolding fill_fields
fill_fields-get t row col zero k h = absurd (omega arith)
fill_fields-get t row col (suc left) zero h =
    ap some (fill_field-place (get_elem? t.columns col) row)
    ∙ ap (λ c. some (store_cell (place_of t c row))) (omega arith)
fill_fields-get t row col (suc left) (suc k) h =
    fill_fields-get t row (col + 1) left k (omega arith)
    ∙ ap (λ c. some (store_cell (place_of t c row))) (omega arith)

length-fill_fields :
    (t : ArrowTable) (row col left : ℕ) → length (fill_fields t row col left) ≡ left
unfolding fill_fields
length-fill_fields t row col zero = refl
length-fill_fields t row col (suc left) = ap suc (length-fill_fields t row (col + 1) left)

-- `fill_row` succeeds, zeroes the null bytes, and calls every field of the table. The field at
-- position `col` is set to not NULL and then given the value at the row's place in the column of the
-- same position, converted by its type. It is set to NULL, and given no value, if there is no such
-- column, if the row lies beyond the end of the column, or if the value there is null.
pub fill_row_cells :
    (s : TableShare) (t : ArrowTable) (row col : ℕ)
    → col < s.fields
    → ((fill_row s t row).0 ≡ success)
      × ((fill_row s t row).1.zeroed ≡ s.null_bytes)
      × (length (fill_row s t row).1.calls ≡ s.fields)
      × (get_elem? (fill_row s t row).1.calls col ≡ some (told (present (place_of t col row))))
unfolding fill_row
fill_row_cells s t row col h = (
  refl,
  refl,
  length-fill_fields t row 0 s.fields,
  fill_fields-get t row 0 s.fields col h
      ∙ ap (λ c. some (store_cell (place_of t c row))) (omega arith)
      ∙ ap some (store_cell-told (place_of t col row)),
)
