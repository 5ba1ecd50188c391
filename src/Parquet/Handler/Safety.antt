-- ===== src/Parquet/Handler/Safety.antt =====
-- No sequence of calls reads through a null pointer, and the cursor stays within the rows.
use devel_mysql_plugin.Common.{
  ℕ, ◌≤◌, ◌<◌, ◌≡◌, refl, arith, Bool, Bool-cases, inl, inr, Option, none, some, List, [], ◌∷◌, leb,
  ℤ, pos, pos_part, ltb_ℤ, wrap_signed, ◌^◌, not, ◌||◌,
}
use devel_mysql_plugin.Libc.Files.{Files}
use devel_mysql_plugin.Parquet.HaError.{HaError}
use devel_mysql_plugin.Parquet.Arrow.{ArrowTable}
use devel_mysql_plugin.Parquet.Server.{Server}
use devel_mysql_plugin.Parquet.Row.{fill_row}
use devel_mysql_plugin.Parquet.Handler.{
  Handler, construct, ha_open, open_path, get_share, adopt, parse, read_file, open_shared,
  parquet_path, fill, advance, deliver, close, rnd_init, rnd_next, rnd_end, position, rnd_pos, info,
  external_lock, store_lock, write_row, update_row, delete_row, delete_all_rows, extra,
}
use devel_mysql_plugin.Parquet.Handler.Calls.{
  World, Call, creates, drops, opens, closes, inits, nexts, poses, infos, locks, apply, run, newly,
  on_outcome,
}

-- The test of `rnd_pos`.
abbrev out_of_range : ℤ → ℕ → Bool
out_of_range row_idx total_rows = ltb_ℤ row_idx (pos 0) || not (ltb_ℤ row_idx (pos total_rows))

-- The row count is that of the loaded table, and 0 without one.
abbrev pub Counted : Option ArrowTable → ℕ → Type 0
Counted none n = n ≡ 0
Counted (some t) n = n ≡ t.num_rows

pub record Inv (h : Handler) : Type 0 where
  pub counted : Counted h.arrow_table h.total_rows
  pub cursor : h.current_row ≤ h.total_rows
  pub wide : h.ref_length ≡ 8

-- The call went through, and the handler is in order after it.
abbrev pub Safe : Option (HaError × World) → Type 0
Safe none = ⊥
Safe (some (rc, w)) = Inv w.handler

module _ (srv : Server) where
  adopt-Inv : (h : Handler) → Inv h → (t : Option ArrowTable) → Inv (adopt srv h t).1
  adopt-Inv h v none = v
  adopt-Inv h v (some t) = record { counted = refl; cursor = omega arith; wide = v.wide }

  parse-Inv : (h : Handler) → Inv h → (r : Option srv.Reader) → Inv (parse srv h r).1
  parse-Inv h v none = v
  parse-Inv h v (some reader) = adopt-Inv h v (srv.read_table reader)

  read_file-Inv : (h : Handler) → Inv h → (f : Option srv.File) → Inv (read_file srv h f).1
  read_file-Inv h v none = v
  read_file-Inv h v (some file) = parse-Inv h v (srv.open_file file)

  reset_fields :
      (h : Handler) (s : Option ℕ) (l : ℕ) → Inv h → Inv (record h { share = s; lock_type = l })
  reset_fields h s l v = record { counted = v.counted; cursor = v.cursor; wide = v.wide }

  open_shared-Inv :
      (name : List ℕ) (files : Files) (h : Handler) (s : Option ℕ)
      → Inv h
      → Inv (open_shared srv name files h s).1
  unfolding open_path
  open_shared-Inv name files h none v = reset_fields h none h.lock_type v
  open_shared-Inv name files h (some s) v =
      read_file-Inv _ (reset_fields h (some s) srv.locks.tl_unlock v)
        (srv.open_readable (parquet_path srv name files) (files (parquet_path srv name files)))

  module _ (w : World) (v : Inv w.handler) where
    advance-Safe :
        (t : Option ArrowTable)
        → Counted t w.handler.total_rows
        → w.handler.current_row < w.handler.total_rows
        → Safe (on_outcome w (advance srv w.handler (fill srv t w.handler.current_row)))
    unfolding fill_row
    advance-Safe none c lt = absurd (omega arith)
    advance-Safe (some t) c lt = record { counted = v.counted; cursor = omega arith; wide = v.wide }

    deliver-Safe :
        (t : Option ArrowTable) (row : ℕ)
        → Counted t w.handler.total_rows
        → row < w.handler.total_rows
        → Safe (on_outcome w (deliver w.handler (fill srv t row)))
    unfolding fill_row
    deliver-Safe none row c lt = absurd (omega arith)
    deliver-Safe (some t) row c lt = v

  rnd_next-Safe : (w : World) → Inv w.handler → Safe (on_outcome w (rnd_next srv w.handler))
  unfolding rnd_next
  rnd_next-Safe w v = elim (Bool-cases (leb w.handler.total_rows w.handler.current_row)) [
    | inl e ↦ rw e v
    | inr e ↦ rw e (advance-Safe w v w.handler.arrow_table v.counted (ground arith))
  ]

  rnd_pos-Safe :
      (w : World) (saved : List ℕ)
      → Inv w.handler
      → Safe (on_outcome w (rnd_pos srv saved w.handler))
  unfolding rnd_pos
  rnd_pos-Safe w saved v = elim (Bool-cases (out_of_range row_idx w.handler.total_rows)) [
    | inl e ↦ rw e v
    | inr e ↦
        rw e (deliver-Safe w v w.handler.arrow_table (pos_part row_idx) v.counted (ground arith))
  ]
    where
      row_idx : ℤ
      row_idx = wrap_signed (2 ^ 64) (pos (srv.my_get_ptr saved w.handler.ref_length))

  pub apply-Safe : (w : World) (c : Call) → Inv w.handler → Safe (apply srv w c)
  unfolding apply close rnd_init rnd_end position info external_lock store_lock write_row update_row
      delete_row delete_all_rows extra
  apply-Safe w (creates name comment) v = v
  apply-Safe w (drops name) v = v
  apply-Safe w (opens name fresh) v =
      unfold ha_open in open_shared-Inv name w.files w.handler (get_share w.ha_share fresh).0 v
  apply-Safe w closes v = record { counted = refl; cursor = omega arith; wide = v.wide }
  apply-Safe w inits v = record { counted = v.counted; cursor = omega arith; wide = v.wide }
  apply-Safe w nexts v = rnd_next-Safe w v
  apply-Safe w (poses saved) v = rnd_pos-Safe w saved v
  apply-Safe w (infos flag) v = record { counted = v.counted; cursor = v.cursor; wide = v.wide }
  apply-Safe w (locks b t) v = ground arith
  apply-Safe w _ v = v

  Safe-step :
      (r : Option (HaError × World))
      → Safe r
      → (rc : HaError) × (w : World) × (r ≡ some (rc, w)) × Inv w.handler
  Safe-step none h = absurd h
  Safe-step (some (rc, w)) h = (rc, w, refl, h)

  run-Inv :
      (cs : List Call) (w : World)
      → Inv w.handler
      → (w' : World) × (run srv cs w ≡ some w') × Inv w'.handler
  unfolding run
  run-Inv [] w v = (w, refl, v)
  run-Inv (c ∷ cs) w v =
      let (rc, w', e, v') = Safe-step (apply srv w c) (apply-Safe w c v) in
      let (u, r, v'') = run-Inv cs w' v' in (u, rw (e, run) r, v'')

  pub construct-Inv : Inv (construct srv)
  unfolding construct
  construct-Inv = record { counted = refl; cursor = omega arith; wide = refl }

  -- Whatever calls the server makes on a new handler, in whatever order, each of them goes through:
  -- none reads a row of a table that is not loaded. After them the row count is that of the loaded
  -- table, and the cursor lies within it.
  run_total :
      (cs : List Call) (files : Files) (ha_share : Option ℕ)
      → (w : World) × (run srv cs (newly srv files ha_share) ≡ some w) × Inv w.handler
  run_total cs files ha_share = run-Inv cs (newly srv files ha_share) construct-Inv
