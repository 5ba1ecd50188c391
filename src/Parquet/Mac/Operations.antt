-- ===== src/Parquet/Mac/Operations.antt =====
-- The operations of the two versions, one by one: all but `open` do not depend on Arrow's ReadTable.
use Prim.Native.Nat.{bit_and}
use devel_mysql_plugin.Common.{
  ℕ, suc, ◌-◌, ◌≡◌, ◌∙◌, ap, refl, arith, Bool, true, false, not, Option, none, some, List, [], ◌∷◌,
  length, take-min, ltb, leb, ◌==◌, if◌then◌else◌, ◌||◌, ◌^◌, pos, pos_part, ltb_ℤ, wrap_signed,
}
use devel_mysql_plugin.Libc.Files.{Files}
use devel_mysql_plugin.Parquet.HaError.{
  HaError, success, ha_err_crashed_on_usage, ha_err_out_of_mem, ha_err_no_such_table,
  ha_err_end_of_file, ha_err_wrong_command,
}
use devel_mysql_plugin.Parquet.Arrow.{ArrowTable}
use devel_mysql_plugin.Parquet.Row.{RowBuffer}
use devel_mysql_plugin.Parquet.Sidecar.{write_prq_meta, chosen_path, create}
use devel_mysql_plugin.Parquet.Server.{Server, Statistics}
use devel_mysql_plugin.Parquet.Handler.{
  Handler, rnd_next, rnd_pos, info, store_lock, downgrade, fill, advance, deliver,
}
use devel_mysql_plugin.Parquet.Mac.Sidecar.{write_same}
use devel_mysql_plugin.Parquet.Mac.Row.{mac_fill_row-fill_row}
use devel_mysql_plugin.Parquet.Mac.Engine.{
  mac_chosen_path, mac_create, mac_fill, mac_advance, mac_rnd_next, mac_deliver, mac_rnd_pos,
  mac_info, mac_store_lock,
}

module _ (srv : Server) where
  pub chosen_same :
      (name : List ℕ) (comment : Option (List ℕ))
      → mac_chosen_path srv name comment ≡ chosen_path srv.fn_reflen name comment
  unfolding mac_chosen_path chosen_path
  chosen_same name none = refl
  chosen_same name (some []) = refl
  chosen_same name (some (c ∷ comment)) =
      let there : ltb 0 (suc (length comment)) ≡ true = ground arith in
      rw there (take-min (srv.fn_reflen - 1) (c ∷ comment))

  pub answer_same :
      (r : Bool × Files)
      → ◌≡◌ {A = HaError × Files}
          (if not r.0 then (ha_err_crashed_on_usage, r.1) else (success, r.1))
          (if r.0 then (success, r.1) else (ha_err_crashed_on_usage, r.1))
  answer_same (true, files) = refl
  answer_same (false, files) = refl

  pub create_same :
      (name : List ℕ) (comment : Option (List ℕ)) (files : Files)
      → mac_create srv name comment files ≡ create srv.fn_reflen srv.may_write name comment files
  unfolding mac_create create
  create_same name comment files =
      rw
        (
          chosen_same name comment,
          write_same srv.fn_reflen srv.may_write name (chosen_path srv.fn_reflen name comment)
              files,
        )
        (answer_same (
          write_prq_meta srv.fn_reflen srv.may_write name (chosen_path srv.fn_reflen name comment)
            files))

  pub fill_same : (t : Option ArrowTable) (row : ℕ) → mac_fill srv t row ≡ fill srv t row
  fill_same none row = refl
  fill_same (some t) row = ap some (mac_fill_row-fill_row srv.table_share t row)

  pub advance_same :
      (h : Handler) (filled : Option (HaError × RowBuffer))
      → mac_advance srv h filled ≡ advance srv h filled
  advance_same h none = refl
  advance_same h (some (success, buf)) = refl
  advance_same h (some (ha_err_crashed_on_usage, buf)) = refl
  advance_same h (some (ha_err_out_of_mem, buf)) = refl
  advance_same h (some (ha_err_no_such_table, buf)) = refl
  advance_same h (some (ha_err_end_of_file, buf)) = refl
  advance_same h (some (ha_err_wrong_command, buf)) = refl

  pub deliver_same :
      (h : Handler) (filled : Option (HaError × RowBuffer))
      → mac_deliver srv h filled ≡ deliver h filled
  deliver_same h none = refl
  deliver_same h (some (rc, buf)) = refl

  pub rnd_next_same : (h : Handler) → mac_rnd_next srv h ≡ rnd_next srv h
  unfolding mac_rnd_next rnd_next
  rnd_next_same h =
      ap
        (λ o.
          if leb h.total_rows h.current_row
          then some (record { rc = ha_err_end_of_file; row = none; after = h })
          else o)
        (advance_same h (mac_fill srv h.arrow_table h.current_row)
          ∙ ap (advance srv h) (fill_same h.arrow_table h.current_row))

  pub rnd_pos_same : (saved : List ℕ) (h : Handler) → mac_rnd_pos srv saved h ≡ rnd_pos srv saved h
  unfolding mac_rnd_pos rnd_pos
  rnd_pos_same saved h =
      let row_idx = wrap_signed (2 ^ 64) (pos (srv.my_get_ptr saved h.ref_length)) in
      ap
        (λ o.
          if ltb_ℤ row_idx (pos 0) || not (ltb_ℤ row_idx (pos h.total_rows))
          then some (record { rc = ha_err_end_of_file; row = none; after = h })
          else o)
        (deliver_same h (mac_fill srv h.arrow_table (pos_part row_idx))
          ∙ ap (deliver h) (fill_same h.arrow_table (pos_part row_idx)))

  pub raise_same :
      (b : Bool) (n : ℕ) (s : Statistics)
      → (if b then record s { records = 2 } else record s { records = n })
        ≡ record s { records = if b then 2 else n }
  raise_same true n s = refl
  raise_same false n s = refl

  pub info_same : (flag : ℕ) (h : Handler) → mac_info srv flag h ≡ info srv flag h
  unfolding mac_info info
  info_same flag h =
      ap
        (λ s. (
          success,
          record h {
            stats =
                if not (bit_and flag srv.ha_status_auto == 0)
                then record s { auto_increment_value = 1 }
                else s;
          },
        ))
        (raise_same (ltb h.total_rows 2) h.total_rows srv.new_statistics)

  pub store_lock_same :
      (b : Bool) (l : ℕ) (h : Handler) → mac_store_lock srv b l h ≡ store_lock srv b l h
  unfolding mac_store_lock store_lock downgrade
  store_lock_same b l h = refl
