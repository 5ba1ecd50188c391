-- ===== src/Parquet/Mac/Agreement.antt =====
-- The two engines of Source/05_ReadParquet, Mac/ha_parquet.cc and Linux/ha_parquet.cc, side by side.
use devel_mysql_plugin.Common.{
  ℕ, ◌≡◌, ◌∙◌, ap, refl, Bool, true, false, Option, none, some, List, [], ◌∷◌,
}
use devel_mysql_plugin.Libc.Files.{Files}
use devel_mysql_plugin.Parquet.HaError.{success}
use devel_mysql_plugin.Parquet.Arrow.{ArrowTable}
use devel_mysql_plugin.Parquet.Sidecar.{make_prq_path, read_prq_meta, delete_table}
use devel_mysql_plugin.Parquet.Server.{Server}
use devel_mysql_plugin.Parquet.Handler.{
  Handler, get_share, close, rnd_init, rnd_end, position, external_lock, write_row, update_row,
  delete_row, delete_all_rows, extra, ha_open, open_path, parquet_path, or_default, open_shared,
  read_file, parse, adopt,
}
use devel_mysql_plugin.Parquet.Handler.Calls.{
  World, Call, creates, opens, nexts, poses, infos, locks, on_handler, on_outcome, apply, run,
}
use devel_mysql_plugin.Parquet.Handler.View.{on_row, without_row, consed, reply, replies}
use devel_mysql_plugin.Parquet.Mac.Sidecar.{mac_make_prq_path, mac_get_share, read_same}
use devel_mysql_plugin.Parquet.Mac.Engine.{
  mac_close, mac_rnd_init, mac_rnd_end, mac_external_lock, mac_extra, mac_write_row, mac_update_row,
  mac_delete_row, mac_delete_all_rows, mac_delete_table, mac_position,
}
use devel_mysql_plugin.Parquet.Mac.Calls.{
  mac_adopt, mac_parse, mac_read_file, mac_path, mac_open_shared, mac_open, on_open, mac_apply,
  mac_run, mac_reply, mac_replies,
}
use devel_mysql_plugin.Parquet.Mac.Operations.{
  create_same, rnd_next_same, rnd_pos_same, info_same, store_lock_same,
}

-- Arrow's two forms of ReadTable on the same file: the older one reports a status and sets a pointer,
-- the newer one gives the table or an error.
pub data Agree : Bool × Option ArrowTable → Option ArrowTable → Type 0 where
  both_fail : (tbl : Option ArrowTable) → Agree (false, tbl) none
  both_read : (tbl : ArrowTable) → Agree (true, some tbl) (some tbl)

module _ (srv : Server) (read_status : srv.Reader → Bool × Option ArrowTable) where
  adopt_same :
      (h : Handler) (r : Bool × Option ArrowTable) (o : Option ArrowTable)
      → Agree r o
      → mac_adopt srv read_status h r ≡ some (adopt srv h o)
  adopt_same h _ _ (both_fail tbl) = refl
  adopt_same h _ _ (both_read tbl) = refl

  -- The two forms agree on every reader.
  abbrev pub SameArrow : Type 0
  SameArrow = (reader : srv.Reader) → Agree (read_status reader) (srv.read_table reader)

  parse_same :
      SameArrow
      → (h : Handler) (reader : Option srv.Reader)
      → mac_parse srv read_status h reader ≡ some (parse srv h reader)
  parse_same same h none = refl
  parse_same same h (some reader) =
      adopt_same h (read_status reader) (srv.read_table reader) (same reader)

  read_file_same :
      SameArrow
      → (h : Handler) (file : Option srv.File)
      → mac_read_file srv read_status h file ≡ some (read_file srv h file)
  read_file_same same h none = refl
  read_file_same same h (some file) = parse_same same h (srv.open_file file)

  path_same :
      (name : List ℕ) (sidecar : Option (List ℕ))
      → mac_path srv read_status name sidecar ≡ or_default srv name sidecar
  path_same name none = refl
  path_same name (some path) = refl

  open_shared_same :
      SameArrow
      → (name : List ℕ) (files : Files) (h : Handler) (s : Option ℕ)
      → mac_open_shared srv read_status name files h s ≡ some (open_shared srv name files h s)
  unfolding open_path parquet_path
  open_shared_same same name files h none = refl
  open_shared_same same name files h (some s) =
      let h' = record h { share = some s; lock_type = srv.locks.tl_unlock } in
      ap
        (λ m.
          let path = mac_path srv read_status name m in
          mac_read_file srv read_status h' (srv.open_readable path (files path)))
        (read_same srv.fn_reflen name files)
      ∙ ap (λ path. mac_read_file srv read_status h' (srv.open_readable path (files path)))
          (path_same name (read_prq_meta srv.fn_reflen name files))
      ∙ read_file_same same h'
          (srv.open_readable (parquet_path srv name files) (files (parquet_path srv name files)))

  pub apply_same :
      SameArrow → (w : World) (c : Call) → mac_apply srv read_status w c ≡ apply srv w c
  unfolding mac_apply apply mac_delete_table delete_table mac_open ha_open mac_close close
      mac_rnd_init rnd_init mac_rnd_end rnd_end position mac_external_lock external_lock mac_extra
      extra mac_write_row write_row mac_update_row update_row mac_delete_row delete_row
      mac_delete_all_rows delete_all_rows mac_position mac_make_prq_path make_prq_path mac_get_share
      get_share
  apply_same same w (creates name comment) =
      ap (λ r. some (r.0, record w { files = r.1 })) (create_same srv name comment w.files)
  apply_same same w (opens name fresh) =
      let (tmp_share, ha_share) = get_share w.ha_share fresh in
      ap (λ r. on_open srv read_status w (r, ha_share))
        (open_shared_same same name w.files w.handler tmp_share)
  apply_same same w nexts = ap (on_outcome w) (rnd_next_same srv w.handler)
  apply_same same w (poses saved) = ap (on_outcome w) (rnd_pos_same srv saved w.handler)
  apply_same same w (infos flag) = ap (on_handler w) (info_same srv flag w.handler)
  apply_same same w (locks b l) =
      ap (λ h. some (success, record w { handler = h })) (store_lock_same srv b l w.handler)
  apply_same same w _ = refl

  pub reply_same :
      SameArrow → (w : World) (c : Call) → mac_reply srv read_status w c ≡ reply srv w c
  unfolding mac_reply reply
  reply_same same w nexts = ap (on_row srv w) (rnd_next_same srv w.handler)
  reply_same same w (poses saved) = ap (on_row srv w) (rnd_pos_same srv saved w.handler)
  reply_same same w c = ap (without_row srv) (apply_same same w c)

  -- Two ways to go on from a step that come to the same.
  go_on :
      {A B : Type 0} (o : Option (A × World)) (f g : A → World → Option B)
      → ((a : A) (w : World) → f a w ≡ g a w)
      → ◌≡◌ {A = Option B}
          (elim o [ none ↦ none | some (a, w') ↦ f a w' ])
          (elim o [ none ↦ none | some (a, w') ↦ g a w' ])
  go_on none f g rest = refl
  go_on (some (a, w)) f g rest = rest a w

  run_same : SameArrow → (cs : List Call) (w : World) → mac_run srv read_status cs w ≡ run srv cs w
  unfolding mac_run run
  run_same same [] w = refl
  run_same same (c ∷ cs) w =
      ap (λ o. elim o [ none ↦ none | some (rc, w') ↦ mac_run srv read_status cs w' ])
        (apply_same same w c)
      ∙ go_on (apply srv w c) (λ rc w'. mac_run srv read_status cs w') (λ rc w'. run srv cs w')
          (λ rc. run_same same cs)

  replies_same :
      SameArrow → (cs : List Call) (w : World) → mac_replies srv read_status cs w ≡ replies srv cs w
  unfolding mac_replies replies
  replies_same same [] w = refl
  replies_same same (c ∷ cs) w =
      ap
        (λ o. elim o [
          | none ↦ none
          | some (a, w') ↦ consed srv a (mac_replies srv read_status cs w')
        ])
        (reply_same same w c)
      ∙ go_on (reply srv w c) (λ a w'. consed srv a (mac_replies srv read_status cs w'))
          (λ a w'. consed srv a (replies srv cs w'))
          (λ a w'. ap (consed srv a) (replies_same same cs w'))

  -- Any calls in any order, on any handler, files and share, come to the same on the two engines,
  -- where Arrow's two forms of ReadTable agree: they leave the same handler, files and share, and give
  -- the same results and rows, a read through a null pointer included.
  pub mac_run-run :
      SameArrow
      → (cs : List Call) (w : World)
      → (mac_run srv read_status cs w ≡ run srv cs w)
        × (mac_replies srv read_status cs w ≡ replies srv cs w)
  mac_run-run same cs w = (run_same same cs w, replies_same same cs w)
