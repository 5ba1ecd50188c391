-- ===== src/Parquet/Handler/Calls.antt =====
-- A table's life as the calls that the server makes on it, in any order.
use devel_mysql_plugin.Common.{ℕ, Bool, Option, none, some, List, [], ◌∷◌}
use devel_mysql_plugin.Libc.Files.{Files}
use devel_mysql_plugin.Parquet.HaError.{HaError, success}
use devel_mysql_plugin.Parquet.Sidecar.{create, delete_table}
use devel_mysql_plugin.Parquet.Server.{Server}
use devel_mysql_plugin.Parquet.Handler.{
  Handler, Outcome, ha_open, close, rnd_init, rnd_next, rnd_end, position, rnd_pos, info,
  external_lock, store_lock, write_row, update_row, delete_row, delete_all_rows, extra, construct,
}

-- One handler, the files and the share of its table.
pub record World : Type 0 where
  pub handler : Handler
  pub files : Files
  pub ha_share : Option ℕ

pub data Call : Type 0 where
  creates : List ℕ → Option (List ℕ) → Call
  drops : List ℕ → Call
  opens : List ℕ → Option ℕ → Call
  closes inits nexts ends positions : Call
  poses : List ℕ → Call
  infos : ℕ → Call
  locks : Bool → ℕ → Call
  externals extras writes updates deletes deletes_all : Call

-- The operation changed the handler only, and it answers at once.
abbrev pub on_handler : World → HaError × Handler → Option (HaError × World)
on_handler w (rc, h) = some (rc, record w { handler = h })

abbrev pub on_outcome : World → Option Outcome → Option (HaError × World)
on_outcome w none = none
on_outcome w (some o) = some (o.rc, record w { handler = o.after })

module _ (srv : Server) where
  unfoldable pub apply : World → Call → Option (HaError × World)
  apply w (creates name comment) =
      let (rc, files) = create srv.fn_reflen srv.may_write name comment w.files in
      some (rc, record w { files = files })
  apply w (drops name) =
      let (rc, files) = delete_table srv.fn_reflen name w.files in
      some (rc, record w { files = files })
  apply w (opens name fresh) =
      let (rc, h, s) = ha_open srv name w.files w.ha_share fresh w.handler in
      some (rc, record w { handler = h; ha_share = s })
  apply w closes = on_handler w (close w.handler)
  apply w inits = on_handler w (rnd_init w.handler)
  apply w nexts = on_outcome w (rnd_next srv w.handler)
  apply w ends = on_handler w (rnd_end w.handler)
  apply w positions = some (success, record w { handler = position w.handler })
  apply w (poses saved) = on_outcome w (rnd_pos srv saved w.handler)
  apply w (infos flag) = on_handler w (info srv flag w.handler)
  apply w (locks in_lock_tables lock_type) =
      some (success, record w { handler = store_lock srv in_lock_tables lock_type w.handler })
  apply w externals = on_handler w (external_lock w.handler)
  apply w extras = on_handler w (extra w.handler)
  apply w writes = on_handler w (write_row w.handler)
  apply w updates = on_handler w (update_row w.handler)
  apply w deletes = on_handler w (delete_row w.handler)
  apply w deletes_all = on_handler w (delete_all_rows w.handler)

  -- A run of calls; `none` if one of them reads through a null pointer.
  unfoldable pub run : List Call → World → Option World
  run [] w = some w
  run (c ∷ cs) w = elim (apply w c) [ none ↦ none | some (rc, w') ↦ run cs w' ]

  -- A new handler on a table with these files.
  abbrev pub newly : Files → Option ℕ → World
  newly files ha_share = record { handler = construct srv; files = files; ha_share = ha_share }
