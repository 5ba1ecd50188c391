-- ===== src/Parquet/Mac/Engine.antt =====
-- The members of `ha_parquet` in Source/05_ReadParquet/Mac/ha_parquet.cc and ha_parquet.h. The state is
-- that of Handler; the parameter for the data dictionary is not used by the code and left out. `none`
-- in place of a result stands for a read through a null pointer.
use Prim.Native.Nat.{bit_and}
use devel_mysql_plugin.Common.{
  ℕ, ◌+◌, ◌-◌, ◌^◌, pos, pos_part, ltb_ℤ, wrap_signed, ltb, leb, ◌==◌, min, Bool, not, ◌&&◌, ◌||◌,
  Option, none, some, List, [], take, length, if◌then◌else◌,
}
use devel_mysql_plugin.Libc.Files.{Files, remove}
use devel_mysql_plugin.Parquet.HaError.{
  HaError, success, ha_err_crashed_on_usage, ha_err_end_of_file, ha_err_wrong_command,
}
use devel_mysql_plugin.Parquet.Arrow.{ArrowTable}
use devel_mysql_plugin.Parquet.Row.{RowBuffer}
use devel_mysql_plugin.Parquet.Sidecar.{default_path}
use devel_mysql_plugin.Parquet.Server.{Server}
use devel_mysql_plugin.Parquet.Handler.{Handler, Outcome}
use devel_mysql_plugin.Parquet.Mac.Row.{mac_fill_row}
use devel_mysql_plugin.Parquet.Mac.Sidecar.{mac_make_prq_path, mac_write_prq_meta}

unfoldable pub mac_close : Handler → HaError × Handler
mac_close h = (success, record h { arrow_table = none; total_rows = 0; current_row = 0 })

unfoldable pub mac_rnd_init : Handler → HaError × Handler
mac_rnd_init h = (success, record h { current_row = 0 })

unfoldable pub mac_position : Handler → Handler
mac_position h = h

-- The operations that leave the handler alone, by their results.
unfoldable pub mac_rnd_end : HaError
mac_rnd_end = success

unfoldable pub mac_external_lock : HaError
mac_external_lock = success

unfoldable pub mac_extra : HaError
mac_extra = success

unfoldable pub mac_write_row : HaError
mac_write_row = ha_err_wrong_command

unfoldable pub mac_update_row : HaError
mac_update_row = ha_err_wrong_command

unfoldable pub mac_delete_row : HaError
mac_delete_row = ha_err_wrong_command

unfoldable pub mac_delete_all_rows : HaError
mac_delete_all_rows = ha_err_wrong_command

module _ (srv : Server) where
  open srv use {
    fn_reflen, open_readable, open_file, my_store_ptr, my_get_ptr, table_share, may_write,
  }

  -- The constructor; the members that it leaves alone have the values of their declarations, if any:
  -- the lock data has none.
  unfoldable pub mac_construct : Handler
  mac_construct = record {
    share = none;
    lock_type = srv.unset_lock_type;
    arrow_table = none;
    current_row = 0;
    total_rows = 0;
    ref_length = 8;
    ref = [];
    stats = srv.new_statistics;
  }

  -- `parquet_path` in `create`: `len` bytes of the comment, which is there and not empty, or else the
  -- default.
  unfoldable pub mac_chosen_path : List ℕ → Option (List ℕ) → List ℕ
  mac_chosen_path name none = default_path fn_reflen name
  mac_chosen_path name (some comment) =
      if ltb 0 (length comment)
      then take (min (length comment) (fn_reflen - 1)) comment
      else default_path fn_reflen name

  unfoldable pub mac_create : List ℕ → Option (List ℕ) → Files → HaError × Files
  mac_create name comment files =
      let (written, files') =
        mac_write_prq_meta fn_reflen may_write name (mac_chosen_path name comment) files in
      if not written then (ha_err_crashed_on_usage, files') else (success, files')

  unfoldable pub mac_delete_table : List ℕ → Files → HaError × Files
  mac_delete_table name files = (success, remove (mac_make_prq_path fn_reflen name) files)

  -- The calls of `fill_row` and what follows them.
  abbrev pub mac_fill : Option ArrowTable → ℕ → Option (HaError × RowBuffer)
  mac_fill none row_idx = none
  mac_fill (some t) row_idx = some (mac_fill_row table_share t row_idx)

  abbrev pub mac_advance : Handler → Option (HaError × RowBuffer) → Option Outcome
  mac_advance h none = none
  mac_advance h (some (success, buf)) = some (record {
    rc = success;
    row = some buf;
    after = record h {
      ref = my_store_ptr h.ref_length h.current_row;
      current_row = h.current_row + 1;
    };
  })
  mac_advance h (some (rc, buf)) = some (record { rc = rc; row = some buf; after = h })

  unfoldable pub mac_rnd_next : Handler → Option Outcome
  mac_rnd_next h =
      if leb h.total_rows h.current_row
      then some (record { rc = ha_err_end_of_file; row = none; after = h })
      else mac_advance h (mac_fill h.arrow_table h.current_row)

  abbrev pub mac_deliver : Handler → Option (HaError × RowBuffer) → Option Outcome
  mac_deliver h none = none
  mac_deliver h (some (rc, buf)) = some (record { rc = rc; row = some buf; after = h })

  unfoldable pub mac_rnd_pos : List ℕ → Handler → Option Outcome
  mac_rnd_pos saved h =
      let row_idx = wrap_signed (2 ^ 64) (pos (my_get_ptr saved h.ref_length)) in
      if ltb_ℤ row_idx (pos 0) || not (ltb_ℤ row_idx (pos h.total_rows))
      then some (record { rc = ha_err_end_of_file; row = none; after = h })
      else mac_deliver h (mac_fill h.arrow_table (pos_part row_idx))

  -- The three statements on `stats`, one after another.
  unfoldable pub mac_info : ℕ → Handler → HaError × Handler
  mac_info flag h =
      let counted = record srv.new_statistics { records = h.total_rows } in
      let raised = if ltb counted.records 2 then record counted { records = 2 } else counted in
      let stats =
        if not (bit_and flag srv.ha_status_auto == 0)
        then record raised { auto_increment_value = 1 }
        else raised in
      (success, record h { stats = stats })

  unfoldable pub mac_store_lock : Bool → ℕ → Handler → Handler
  mac_store_lock in_lock_tables lock_type h =
      if not (lock_type == srv.locks.tl_ignore) && (h.lock_type == srv.locks.tl_unlock)
      then (let first =
            if leb srv.locks.tl_write_concurrent_insert lock_type
              && leb lock_type srv.locks.tl_write
              && not in_lock_tables
            then srv.locks.tl_write_allow_write
            else lock_type in
          let second =
            if (first == srv.locks.tl_read_no_insert) && not in_lock_tables
            then srv.locks.tl_read
            else first in
          record h { lock_type = second })
      else h
