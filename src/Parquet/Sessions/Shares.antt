-- ===== src/Parquet/Sessions/Shares.antt =====
-- What a call does to the share of its handler and to that of the table.
use devel_mysql_plugin.Common.{
  ℕ, ◌≡◌, ◌⊎◌, ◌∙◌, sym, refl, inl, inr, Bool, true, false, not, ◌&&◌, ◌==◌, Option, none, some,
  List, leb, ◌||◌, ◌^◌, pos, pos_part, ltb_ℤ, wrap_signed, if◌then◌else◌,
}
use devel_mysql_plugin.Libc.Files.{Files}
use devel_mysql_plugin.Parquet.HaError.{
  HaError, success, ha_err_crashed_on_usage, ha_err_out_of_mem, ha_err_no_such_table,
  ha_err_end_of_file, ha_err_wrong_command,
}
use devel_mysql_plugin.Parquet.Arrow.{ArrowTable}
use devel_mysql_plugin.Parquet.Row.{RowBuffer}
use devel_mysql_plugin.Parquet.Server.{Server}
use devel_mysql_plugin.Parquet.Handler.{
  Handler, Outcome, done, downgrade, get_share, ha_open, open_path, open_shared, read_file, parse,
  adopt, parquet_path, fill, advance, deliver, close, rnd_init, rnd_next, rnd_end, position,
  rnd_pos, info, external_lock, store_lock, write_row, update_row, delete_row, delete_all_rows,
  extra,
}
use devel_mysql_plugin.Parquet.Handler.Calls.{
  World, Call, opens, nexts, poses, locks, apply, on_outcome,
}

-- A handler has no share, or that of its table.
abbrev pub Holds : Option ℕ → Handler → Type 0
Holds ha_share h = (h.share ≡ none) ⊎ (h.share ≡ ha_share)

-- A table's share, once made, stays.
abbrev pub Stays : Option ℕ → Option ℕ → Type 0
Stays before after = (before ≡ none) ⊎ (after ≡ before)

pub Holds-Stays : (s s' : Option ℕ) (h : Handler) → Stays s s' → Holds s h → Holds s' h
Holds-Stays s s' h (inl e) (inl n) = inl n
Holds-Stays s s' h (inl e) (inr g) = inl (g ∙ e)
Holds-Stays s s' h (inr e) (inl n) = inl n
Holds-Stays s s' h (inr e) (inr g) = inr (g ∙ sym e)

-- The handler's share is as it was.
abbrev SameShare : Handler → Option Outcome → Type 0
SameShare h none = Unit {0}
SameShare h (some o) = o.after.share ≡ h.share

-- What a call leaves.
abbrev pub Shared : World → Option (HaError × World) → Type 0
Shared w none = Unit {0}
Shared w (some (rc, w')) = Holds w'.ha_share w'.handler × Stays w.ha_share w'.ha_share

module _ (srv : Server) where
  advance-SameShare :
      (h : Handler) (o : Option (HaError × RowBuffer)) → SameShare h (advance srv h o)
  advance-SameShare h none = tt
  advance-SameShare h (some (success, buf)) = refl
  advance-SameShare h (some (ha_err_crashed_on_usage, buf)) = refl
  advance-SameShare h (some (ha_err_out_of_mem, buf)) = refl
  advance-SameShare h (some (ha_err_no_such_table, buf)) = refl
  advance-SameShare h (some (ha_err_end_of_file, buf)) = refl
  advance-SameShare h (some (ha_err_wrong_command, buf)) = refl

  deliver-SameShare : (h : Handler) (o : Option (HaError × RowBuffer)) → SameShare h (deliver h o)
  deliver-SameShare h none = tt
  deliver-SameShare h (some (rc, buf)) = refl

  end_or :
      (h : Handler) (b : Bool) (o : Option Outcome)
      → SameShare h o
      → SameShare h (if b then done ha_err_end_of_file h else o)
  end_or h true o e = refl
  end_or h false o e = e

  rnd_next-SameShare : (h : Handler) → SameShare h (rnd_next srv h)
  unfolding rnd_next
  rnd_next-SameShare h =
      end_or h (leb h.total_rows h.current_row)
        (advance srv h (fill srv h.arrow_table h.current_row))
        (advance-SameShare h (fill srv h.arrow_table h.current_row))

  rnd_pos-SameShare : (saved : List ℕ) (h : Handler) → SameShare h (rnd_pos srv saved h)
  unfolding rnd_pos
  rnd_pos-SameShare saved h =
      let row_idx = wrap_signed (2 ^ 64) (pos (srv.my_get_ptr saved h.ref_length)) in
      end_or h (ltb_ℤ row_idx (pos 0) || not (ltb_ℤ row_idx (pos h.total_rows)))
        (deliver h (fill srv h.arrow_table (pos_part row_idx)))
        (deliver-SameShare h (fill srv h.arrow_table (pos_part row_idx)))

  relocked :
      (s : Option ℕ) (h : Handler) (l : ℕ) (b : Bool)
      → Holds s h
      → Holds s (if b then record h { lock_type = l } else h)
  relocked s h l true v = v
  relocked s h l false v = v

  outcome-Shared :
      (w : World) (o : Option Outcome)
      → Holds w.ha_share w.handler
      → SameShare w.handler o
      → Shared w (on_outcome w o)
  outcome-Shared w none v e = tt
  outcome-Shared w (some o) (inl n) e = (inl (e ∙ n), inr refl)
  outcome-Shared w (some o) (inr g) e = (inr (e ∙ g), inr refl)

  adopt_share : (h : Handler) (t : Option ArrowTable) → (adopt srv h t).1.share ≡ h.share
  adopt_share h none = refl
  adopt_share h (some t) = refl

  parse_share : (h : Handler) (r : Option srv.Reader) → (parse srv h r).1.share ≡ h.share
  parse_share h none = refl
  parse_share h (some reader) = adopt_share h (srv.read_table reader)

  read_file_share : (h : Handler) (f : Option srv.File) → (read_file srv h f).1.share ≡ h.share
  read_file_share h none = refl
  read_file_share h (some file) = parse_share h (srv.open_file file)

  open_shared_share :
      (name : List ℕ) (files : Files) (h : Handler) (s : Option ℕ)
      → (open_shared srv name files h s).1.share ≡ s
  unfolding open_path
  open_shared_share name files h none = refl
  open_shared_share name files h (some s) =
      read_file_share (record h { share = some s; lock_type = srv.locks.tl_unlock })
        (srv.open_readable (parquet_path srv name files) (files (parquet_path srv name files)))

  get_share-Stays :
      (s fresh : Option ℕ)
      → ((get_share s fresh).0 ≡ (get_share s fresh).1) × Stays s (get_share s fresh).1
  unfolding get_share
  get_share-Stays (some s) fresh = (refl, inr refl)
  get_share-Stays none none = (refl, inl refl)
  get_share-Stays none (some s) = (refl, inl refl)

  pub apply-Shared : (w : World) (c : Call) → Holds w.ha_share w.handler → Shared w (apply srv w c)
  unfolding apply close rnd_init rnd_end position info external_lock store_lock write_row update_row
      delete_row delete_all_rows extra
  apply-Shared w (opens name fresh) v =
      let (same, stays) = get_share-Stays w.ha_share fresh in
      unfold ha_open in
      (inr (open_shared_share name w.files w.handler (get_share w.ha_share fresh).0 ∙ same), stays)
  apply-Shared w nexts v =
      outcome-Shared w (rnd_next srv w.handler) v (rnd_next-SameShare w.handler)
  apply-Shared w (poses saved) v =
      outcome-Shared w (rnd_pos srv saved w.handler) v (rnd_pos-SameShare saved w.handler)
  apply-Shared w (locks b l) v = (
    relocked w.ha_share w.handler (downgrade srv b l)
        (not (l == srv.locks.tl_ignore) && (w.handler.lock_type == srv.locks.tl_unlock)) v,
    inr refl,
  )
  apply-Shared w _ v = (v, inr refl)
