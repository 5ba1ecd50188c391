-- ===== src/Parquet/Handler/Scan.antt =====
-- A full scan: `rnd_init`, then `rnd_next` until it answers with something else than success.
use devel_mysql_plugin.Common.{
  ℕ, zero, suc, ◌+◌, ◌≤◌, ◌<◌, ◌≡◌, ap, arith, false, Option, none, some, List, [], ◌∷◌, leb,
}
use devel_mysql_plugin.Parquet.HaError.{HaError, success, ha_err_end_of_file}
use devel_mysql_plugin.Parquet.Arrow.{ArrowTable}
use devel_mysql_plugin.Parquet.Server.{Server}
use devel_mysql_plugin.Parquet.Row.{RowBuffer, fill_row}
use devel_mysql_plugin.Parquet.Handler.{Handler, Outcome, done, fill, advance, rnd_init, rnd_next}

-- What a scan gives: the rows, the result that ended it, and the handler.
abbrev pub Scanned : Type 0
Scanned = List RowBuffer × HaError × Handler

abbrev pub prepend : Option RowBuffer → Option Scanned → Option Scanned
prepend row none = none
prepend none (some s) = some s
prepend (some buf) (some (rows, rc, h)) = some (buf ∷ rows, rc, h)

-- One answer of `rnd_next`; `rest` is the scan that follows a success.
abbrev pub continue : Outcome → HaError → Option Scanned → Option Scanned
continue o success rest = prepend o.row rest
continue o rc rest = some ([], rc, o.after)

module _ (srv : Server) where
  -- The server's loop with fuel; `none` if the fuel runs out or a call goes astray.
  unfoldable pub scan : ℕ → Handler → Option Scanned
  scan zero h = none
  scan (suc fuel) h = elim (rnd_next srv h) [
    | none ↦ none
    | some o ↦ continue o o.rc (scan fuel o.after)
  ]

  -- The buffers of `n` rows from `i` on.
  unfoldable pub rows_from : ArrowTable → ℕ → ℕ → List RowBuffer
  rows_from t i zero = []
  rows_from t i (suc n) = (fill_row srv.table_share t i).1 ∷ rows_from t (i + 1) n

  pub rnd_next_end :
      (h : Handler) → h.total_rows ≤ h.current_row → rnd_next srv h ≡ done ha_err_end_of_file h
  unfolding rnd_next
  rnd_next_end h le = ground arith

  pub rnd_next_row :
      (h : Handler) (t : ArrowTable)
      → h.arrow_table ≡ some t
      → h.current_row < h.total_rows
      → rnd_next srv h
        ≡ some (record {
          rc = success;
          row = some (fill_row srv.table_share t h.current_row).1;
          after = record h {
            ref = srv.my_store_ptr h.ref_length h.current_row;
            current_row = h.current_row + 1;
          };
        })
  unfolding rnd_next fill_row
  rnd_next_row h t e lt =
      let more : leb h.total_rows h.current_row ≡ false = ground arith in
      rw more (ap (λ a. advance srv h (fill srv a h.current_row)) e)

  scan_from :
      (n fuel : ℕ) (h : Handler) (t : ArrowTable)
      → h.arrow_table ≡ some t
      → h.total_rows ≡ h.current_row + n
      → n < fuel
      → (h' : Handler) × (scan fuel h ≡ some (rows_from t h.current_row n, ha_err_end_of_file, h'))
        × (h'.total_rows ≤ h'.current_row)
  unfolding scan rows_from
  scan_from n zero h t e c lt = absurd (omega arith)
  scan_from zero (suc fuel) h t e c lt = (h, rw (rnd_next_end h (omega arith), scan), omega arith)
  scan_from (suc n) (suc fuel) h t e c lt =
      let (h', s, over) =
        scan_from n fuel
          (record h {
            ref = srv.my_store_ptr h.ref_length h.current_row;
            current_row = h.current_row + 1;
          })
          t e (omega arith) (omega arith) in
      (h', rw (rnd_next_row h t e (omega arith), scan, s), over)

  -- A scan of a loaded table gives each of its rows once, in order, as `fill_row` gives it, and then
  -- the end of the file; asked again it answers the same. One call more than there are rows is enough.
  pub scan_rows :
      (h : Handler) (t : ArrowTable)
      → h.arrow_table ≡ some t
      → h.total_rows ≡ t.num_rows
      → (h' : Handler) × (scan (t.num_rows + 1) (rnd_init h).1
          ≡ some (rows_from t 0 t.num_rows, ha_err_end_of_file, h'))
        × (rnd_next srv h' ≡ done ha_err_end_of_file h')
  unfolding rnd_init
  scan_rows h t e c =
      let (h', s, over) =
        scan_from t.num_rows (t.num_rows + 1) (record h { current_row = 0 }) t e (omega arith)
          (omega arith) in
      (h', s, rnd_next_end h' over)
