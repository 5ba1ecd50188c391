-- ===== src/Parquet/Mac/Calls.antt =====
-- `open` of Source/05_ReadParquet/Mac/ha_parquet.cc, with Mac's form of ReadTable, and the life of a
-- table as the calls that the server makes on it.
use devel_mysql_plugin.Common.{ℕ, Bool, true, false, Option, none, some, List, [], ◌∷◌}
use devel_mysql_plugin.Libc.Files.{Files}
use devel_mysql_plugin.Parquet.HaError.{
  HaError, success, ha_err_crashed_on_usage, ha_err_out_of_mem, ha_err_no_such_table,
}
use devel_mysql_plugin.Parquet.Arrow.{ArrowTable}
use devel_mysql_plugin.Parquet.Sidecar.{default_path}
use devel_mysql_plugin.Parquet.Server.{Server}
use devel_mysql_plugin.Parquet.Handler.{Handler}
use devel_mysql_plugin.Parquet.Handler.Calls.{
  World, Call, creates, drops, opens, closes, inits, nexts, ends, positions, poses, infos, locks,
  externals, extras, writes, updates, deletes, deletes_all, on_handler, on_outcome,
}
use devel_mysql_plugin.Parquet.Mac.Sidecar.{mac_read_prq_meta, mac_get_share}
use devel_mysql_plugin.Parquet.Handler.Cursor.{Answer}
use devel_mysql_plugin.Parquet.Handler.View.{on_row, without_row, consed}
use devel_mysql_plugin.Parquet.Mac.Engine.{
  mac_close, mac_rnd_init, mac_rnd_end, mac_position, mac_external_lock, mac_extra, mac_write_row,
  mac_update_row, mac_delete_row, mac_delete_all_rows, mac_create, mac_delete_table, mac_rnd_next,
  mac_rnd_pos, mac_info, mac_store_lock,
}

module _ (srv : Server) (read_status : srv.Reader → Bool × Option ArrowTable) where
  open srv use {fn_reflen, open_readable, open_file}

  -- What follows `ReadTable(&tbl)`: its status, and what `tbl` points to.
  abbrev pub mac_adopt : Handler → Bool × Option ArrowTable → Option (HaError × Handler)
  mac_adopt h (false, tbl) = some (ha_err_crashed_on_usage, h)
  mac_adopt h (true, none) = none
  mac_adopt h (true, some tbl) =
      some
        (success, record h { arrow_table = some tbl; total_rows = tbl.num_rows; current_row = 0 })

  abbrev pub mac_parse : Handler → Option srv.Reader → Option (HaError × Handler)
  mac_parse h none = some (ha_err_crashed_on_usage, h)
  mac_parse h (some reader) = mac_adopt h (read_status reader)

  abbrev pub mac_read_file : Handler → Option srv.File → Option (HaError × Handler)
  mac_read_file h none = some (ha_err_no_such_table, h)
  mac_read_file h (some file) = mac_parse h (open_file file)

  -- The path that is tried.
  abbrev pub mac_path : List ℕ → Option (List ℕ) → List ℕ
  mac_path name none = default_path fn_reflen name
  mac_path name (some path) = path

  abbrev pub mac_open_shared : List ℕ → Files → Handler → Option ℕ → Option (HaError × Handler)
  mac_open_shared name files h none = some (ha_err_out_of_mem, record h { share = none })
  mac_open_shared name files h (some s) =
      let path = mac_path name (mac_read_prq_meta fn_reflen name files) in
      mac_read_file (record h { share = some s; lock_type = srv.locks.tl_unlock })
        (open_readable path (files path))

  unfoldable pub mac_open :
      List ℕ → Files → Option ℕ → Option ℕ → Handler → Option (HaError × Handler) × Option ℕ
  mac_open name files ha_share fresh h =
      let (tmp_share, ha_share') = mac_get_share ha_share fresh in
      (mac_open_shared name files h tmp_share, ha_share')

  abbrev pub on_open : World → Option (HaError × Handler) × Option ℕ → Option (HaError × World)
  on_open w (none, s) = none
  on_open w (some (rc, h), s) = some (rc, record w { handler = h; ha_share = s })

  unfoldable pub mac_apply : World → Call → Option (HaError × World)
  mac_apply w (creates name comment) =
      let (rc, files) = mac_create srv name comment w.files in some (rc, record w { files = files })
  mac_apply w (drops name) =
      let (rc, files) = mac_delete_table srv name w.files in some (rc, record w { files = files })
  mac_apply w (opens name fresh) = on_open w (mac_open name w.files w.ha_share fresh w.handler)
  mac_apply w closes = on_handler w (mac_close w.handler)
  mac_apply w inits = on_handler w (mac_rnd_init w.handler)
  mac_apply w nexts = on_outcome w (mac_rnd_next srv w.handler)
  mac_apply w ends = some (mac_rnd_end, w)
  mac_apply w positions = some (success, record w { handler = mac_position w.handler })
  mac_apply w (poses saved) = on_outcome w (mac_rnd_pos srv saved w.handler)
  mac_apply w (infos flag) = on_handler w (mac_info srv flag w.handler)
  mac_apply w (locks in_lock_tables lock_type) =
      some (success, record w { handler = mac_store_lock srv in_lock_tables lock_type w.handler })
  mac_apply w externals = some (mac_external_lock, w)
  mac_apply w extras = some (mac_extra, w)
  mac_apply w writes = some (mac_write_row, w)
  mac_apply w updates = some (mac_update_row, w)
  mac_apply w deletes = some (mac_delete_row, w)
  mac_apply w deletes_all = some (mac_delete_all_rows, w)

  -- A run of calls; `none` if one of them reads through a null pointer.
  unfoldable pub mac_run : List Call → World → Option World
  mac_run [] w = some w
  mac_run (c ∷ cs) w = elim (mac_apply w c) [ none ↦ none | some (rc, w') ↦ mac_run cs w' ]

  -- The answers to the calls, with the rows that they deliver.
  unfoldable pub mac_reply : World → Call → Option (Answer × World)
  mac_reply w nexts = on_row srv w (mac_rnd_next srv w.handler)
  mac_reply w (poses saved) = on_row srv w (mac_rnd_pos srv saved w.handler)
  mac_reply w c = without_row srv (mac_apply w c)

  unfoldable pub mac_replies : List Call → World → Option (List Answer)
  mac_replies [] w = some []
  mac_replies (c ∷ cs) w = elim (mac_reply w c) [
    | none ↦ none
    | some (a, w') ↦ consed srv a (mac_replies cs w')
  ]
