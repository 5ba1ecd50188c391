-- ===== src/Parquet/Handler.antt =====
-- The handler of Source/05_ReadParquet/Linux/ha_parquet.cc and ha_parquet.h: its state and its
-- operations. `none` in place of a result stands for a read through a null `arrow_table`. Row numbers
-- and counts are `int64_t` in the code and never negative.
pub mod Calls
pub mod Safety
pub mod Scan
pub mod Positions
pub mod Lifecycle
pub mod Locks
pub mod Capabilities
pub mod Cursor
pub mod View
pub mod Refine
use Prim.Native.Nat.{bit_and}
use devel_mysql_plugin.Common.{
  ℕ, ◌+◌, ◌^◌, ℤ, pos, pos_part, wrap_signed, ltb_ℤ, Bool, true, false, not, ◌&&◌, ◌||◌, Option,
  none, some, List, [], ltb, leb, ◌==◌, if◌then◌else◌,
}
use devel_mysql_plugin.Libc.Files.{Files}
use devel_mysql_plugin.Parquet.HaError.{
  HaError, success, ha_err_crashed_on_usage, ha_err_out_of_mem, ha_err_no_such_table,
  ha_err_end_of_file, ha_err_wrong_command,
}
use devel_mysql_plugin.Parquet.Arrow.{ArrowTable}
use devel_mysql_plugin.Parquet.Row.{TableShare, RowBuffer, fill_row}
use devel_mysql_plugin.Parquet.Sidecar.{default_path, read_prq_meta}
use devel_mysql_plugin.Parquet.Server.{Server, Statistics}

-- The members of `ha_parquet` and those of `handler` that it sets. A share is known by its address.
pub record Handler : Type 0 where
  pub share : Option ℕ
  pub lock_type : ℕ
  pub arrow_table : Option ArrowTable
  pub current_row : ℕ
  pub total_rows : ℕ
  pub ref_length : ℕ
  pub ref : List ℕ
  pub stats : Statistics

-- An operation that may write the row buffer: its result, the buffer it wrote, and the handler.
pub record Outcome : Type 0 where
  pub rc : HaError
  pub row : Option RowBuffer
  pub after : Handler

abbrev pub done : HaError → Handler → Option Outcome
done rc h = some (record { rc = rc; row = none; after = h })

-- The share that `get_share` finds or makes, and what the table then holds. `fresh` is what
-- `new Parquet_share()` gives; it is called only where the table has no share. The lock around the
-- body makes it one step.
unfoldable pub get_share : Option ℕ → Option ℕ → Option ℕ × Option ℕ
get_share (some tmp_share) fresh = (some tmp_share, some tmp_share)
get_share none none = (none, none)
get_share none (some tmp_share) = (some tmp_share, some tmp_share)

-- The operations that use nothing of the server. The writes are all refused.
unfoldable pub close : Handler → HaError × Handler
close h = (success, record h { arrow_table = none; total_rows = 0; current_row = 0 })

unfoldable pub rnd_init : Handler → HaError × Handler
rnd_init h = (success, record h { current_row = 0 })

unfoldable pub rnd_end : Handler → HaError × Handler
rnd_end h = (success, h)

unfoldable pub position : Handler → Handler
position h = h

unfoldable pub external_lock : Handler → HaError × Handler
external_lock h = (success, h)

unfoldable pub write_row : Handler → HaError × Handler
write_row h = (ha_err_wrong_command, h)

unfoldable pub update_row : Handler → HaError × Handler
update_row h = (ha_err_wrong_command, h)

unfoldable pub delete_row : Handler → HaError × Handler
delete_row h = (ha_err_wrong_command, h)

unfoldable pub delete_all_rows : Handler → HaError × Handler
delete_all_rows h = (ha_err_wrong_command, h)

unfoldable pub extra : Handler → HaError × Handler
extra h = (success, h)

-- What `rnd_pos` does with the result of `fill_row`.
abbrev pub deliver : Handler → Option (HaError × RowBuffer) → Option Outcome
deliver h none = none
deliver h (some (rc, buf)) = some (record { rc = rc; row = some buf; after = h })

module _ (srv : Server) where
  open srv use {
    fn_reflen, open_readable, open_file, read_table, my_store_ptr, my_get_ptr, table_share, locks,
  }

  -- The constructor. Nothing initialises the lock data, which `open` does.
  unfoldable pub construct : Handler
  construct = record {
    share = none;
    lock_type = srv.unset_lock_type;
    arrow_table = none;
    current_row = 0;
    total_rows = 0;
    ref_length = 8;
    ref = [];
    stats = srv.new_statistics;
  }

  -- The path that `open` takes from the sidecar, or as a last resort makes from the name.
  abbrev pub or_default : List ℕ → Option (List ℕ) → List ℕ
  or_default name none = default_path fn_reflen name
  or_default name (some path) = path

  unfoldable pub parquet_path : List ℕ → Files → List ℕ
  parquet_path name files = or_default name (read_prq_meta fn_reflen name files)

  -- The end of `open`, by what each of Arrow's calls gave.
  abbrev pub adopt : Handler → Option ArrowTable → HaError × Handler
  adopt h none = (ha_err_crashed_on_usage, h)
  adopt h (some tbl) =
      (success, record h { arrow_table = some tbl; total_rows = tbl.num_rows; current_row = 0 })

  abbrev pub parse : Handler → Option srv.Reader → HaError × Handler
  parse h none = (ha_err_crashed_on_usage, h)
  parse h (some reader) = adopt h (read_table reader)

  abbrev pub read_file : Handler → Option srv.File → HaError × Handler
  read_file h none = (ha_err_no_such_table, h)
  read_file h (some file) = parse h (open_file file)

  -- `open`, once it has a share: `thr_lock_data_init` leaves the lock data unlocked.
  unfoldable pub open_path : List ℕ → Files → Handler → HaError × Handler
  open_path path files h =
      read_file (record h { lock_type = locks.tl_unlock }) (open_readable path (files path))

  abbrev pub open_shared : List ℕ → Files → Handler → Option ℕ → HaError × Handler
  open_shared name files h none = (ha_err_out_of_mem, record h { share = none })
  open_shared name files h (some s) =
      open_path (parquet_path name files) files (record h { share = some s })

  -- `open`: its result, the handler, and the share that the table holds then.
  unfoldable pub ha_open :
      List ℕ → Files → Option ℕ → Option ℕ → Handler → HaError × Handler × Option ℕ
  ha_open name files ha_share fresh h =
      let (tmp_share, ha_share') = get_share ha_share fresh in
      let (rc, h') = open_shared name files h tmp_share in (rc, h', ha_share')

  -- `fill_row` on the handler's table.
  abbrev pub fill : Option ArrowTable → ℕ → Option (HaError × RowBuffer)
  fill none row_idx = none
  fill (some t) row_idx = some (fill_row table_share t row_idx)

  -- What `rnd_next` does with the result of `fill_row`.
  abbrev pub advance : Handler → Option (HaError × RowBuffer) → Option Outcome
  advance h none = none
  advance h (some (success, buf)) = some (record {
    rc = success;
    row = some buf;
    after = record h {
      ref = my_store_ptr h.ref_length h.current_row;
      current_row = h.current_row + 1;
    };
  })
  advance h (some (rc, buf)) = some (record { rc = rc; row = some buf; after = h })

  unfoldable pub rnd_next : Handler → Option Outcome
  rnd_next h =
      if leb h.total_rows h.current_row
      then done ha_err_end_of_file h
      else advance h (fill h.arrow_table h.current_row)

  unfoldable pub rnd_pos : List ℕ → Handler → Option Outcome
  rnd_pos saved h =
      let row_idx = wrap_signed (2 ^ 64) (pos (my_get_ptr saved h.ref_length)) in
      if ltb_ℤ row_idx (pos 0) || not (ltb_ℤ row_idx (pos h.total_rows))
      then done ha_err_end_of_file h
      else deliver h (fill h.arrow_table (pos_part row_idx))

  unfoldable pub info : ℕ → Handler → HaError × Handler
  info flag h =
      let records = if ltb h.total_rows 2 then 2 else h.total_rows in
      let fresh = record srv.new_statistics { records = records } in
      (
        success,
        record h {
          stats =
              if not (bit_and flag srv.ha_status_auto == 0)
              then record fresh { auto_increment_value = 1 }
              else fresh;
        },
      )

  -- The lock type that `store_lock` sets where it sets one; `in_lock_tables` is
  -- `thd_in_lock_tables(thd)`.
  unfoldable pub downgrade : Bool → ℕ → ℕ
  downgrade in_lock_tables lock_type =
      let lock_type' =
        if leb locks.tl_write_concurrent_insert lock_type
          && leb lock_type locks.tl_write
          && not in_lock_tables
        then locks.tl_write_allow_write
        else lock_type in
      if (lock_type' == locks.tl_read_no_insert) && not in_lock_tables
      then locks.tl_read
      else lock_type'

  unfoldable pub store_lock : Bool → ℕ → Handler → Handler
  store_lock in_lock_tables lock_type h =
      if not (lock_type == locks.tl_ignore) && (h.lock_type == locks.tl_unlock)
      then record h { lock_type = downgrade in_lock_tables lock_type }
      else h
