-- ===== src/Parquet/Handler/Refine.antt =====
-- The handler does what the cursor does.
use devel_mysql_plugin.Common.{
  ℕ, not, ◌&&◌, ◌==◌, if◌then◌else◌, ◌+◌, ◌^◌, ◌<◌, ◌≡◌, ◌∙◌, ap, refl, arith, Bool, true, false,
  some, List, [], ◌∷◌, get_elem?_past,
}
use mathlib.Core.Path.{ap₂}
use native.Mathlib.Decide.{dec_lt}
use devel_mysql_plugin.Parquet.HaError.{success}
use devel_mysql_plugin.Parquet.Server.{Server}
use devel_mysql_plugin.Parquet.Row.{fill_row}
use devel_mysql_plugin.Parquet.Handler.{
  downgrade, Handler, close, rnd_init, rnd_end, position, info, external_lock, store_lock,
  write_row, update_row, delete_row, delete_all_rows, extra,
}
use devel_mysql_plugin.Parquet.Handler.Calls.{
  World, Call, creates, drops, opens, closes, inits, nexts, poses, infos, locks, apply,
}
use devel_mysql_plugin.Parquet.Handler.Scan.{rnd_next_end, rnd_next_row}
use devel_mysql_plugin.Parquet.Handler.Positions.{rnd_pos_row, rnd_pos_past}
use devel_mysql_plugin.Parquet.Handler.Cursor.{answer, answers}
use devel_mysql_plugin.Parquet.Handler.View.{
  OnTable, AllOnTable, on_row, reply, consed, replies, contents, view, number, Valid, contents_at,
  PtrWord,
}

module _ (srv : Server) where
  -- What a call must come to.
  abbrev pub Does : World → Call → Type 0
  Does w c =
      (w' : World) × (reply srv w c ≡ some ((answer (number srv) (view srv w) c).0, w'))
      × (view srv w' ≡ (answer (number srv) (view srv w) c).1)
      × Valid srv w'.handler

  -- The handler after a row.
  abbrev moved : Handler → Handler
  moved h = record h {
    ref = srv.my_store_ptr h.ref_length h.current_row;
    current_row = h.current_row + 1;
  }

  nexts-Does : (w : World) → Valid srv w.handler → Does w nexts
  unfolding reply answer
  nexts-Does w v = elim (dec_lt w.handler.current_row w.handler.total_rows) [
    | yes lt ↦
        let (t, e, g) =
          contents_at srv w.handler.arrow_table w.handler.current_row (omega (arith, v.counted)) in
        (
          record w { handler = moved w.handler },
          rw g (ap (on_row srv w) (rnd_next_row srv w.handler t e lt)),
          rw g refl,
          record { counted = v.counted; wide = v.wide; small = v.small },
        )
    | no ge ↦
        let g =
          get_elem?_past (contents srv w.handler.arrow_table) w.handler.current_row
            (omega (arith, v.counted)) in
        (w, rw g (ap (on_row srv w) (rnd_next_end srv w.handler (omega arith))), rw g refl, v)
  ]

  poses-Does :
      (w : World) (saved : List ℕ)
      → Valid srv w.handler
      → number srv saved < 2 ^ 64
      → Does w (poses saved)
  unfolding reply answer
  poses-Does w saved v word =
      let wide : srv.my_get_ptr saved w.handler.ref_length ≡ number srv saved =
        ap (srv.my_get_ptr saved) v.wide in
      elim (dec_lt (number srv saved) w.handler.total_rows) [
        | yes lt ↦
            let (t, e, g) =
              contents_at srv w.handler.arrow_table (number srv saved) (omega (arith, v.counted)) in
            (
              w,
              rw g (
                  ap (on_row srv w)
                    (rnd_pos_row srv saved w.handler t e v.small (omega (arith, wide)))
                  ∙ ap (λ p. some ((success, some (fill_row srv.table_share t p).1), w)) wide),
              refl,
              v,
            )
        | no ge ↦
            let g =
              get_elem?_past (contents srv w.handler.arrow_table) (number srv saved)
                (omega (arith, v.counted)) in
            (
              w,
              rw g (
                  ap (on_row srv w)
                    (rnd_pos_past srv saved w.handler (omega (arith, wide)) (omega (arith, wide)))),
              refl,
              v,
            )
      ]

  relocked :
      (c : Bool) (l : ℕ) (h : Handler)
      → Valid srv h
      → ((if c then record h { lock_type = l } else h).arrow_table ≡ h.arrow_table)
        × ((if c then record h { lock_type = l } else h).current_row ≡ h.current_row)
        × Valid srv (if c then record h { lock_type = l } else h)
  relocked true l h v = (refl, refl, record { counted = v.counted; wide = v.wide; small = v.small })
  relocked false l h v = (refl, refl, v)

  locks-Does : (w : World) (b : Bool) (l : ℕ) → Valid srv w.handler → Does w (locks b l)
  unfolding reply answer apply store_lock
  locks-Does w b l v =
      let (table, row, v') =
        relocked (not (l == srv.locks.tl_ignore) && (w.handler.lock_type == srv.locks.tl_unlock))
          (downgrade srv b l) w.handler v in
      (
        record w { handler = store_lock srv b l w.handler },
        refl,
        ap₂ (λ a n. record { rows = contents srv a; next = n }) table row,
        v',
      )

  pub call-Does : PtrWord srv → (w : World) (c : Call) → OnTable c → Valid srv w.handler → Does w c
  unfolding OnTable reply answer apply close rnd_init rnd_end position info external_lock write_row
      update_row delete_row delete_all_rows extra contents
  call-Does word w (creates name comment) o v = absurd o
  call-Does word w (drops name) o v = absurd o
  call-Does word w (opens name fresh) o v = absurd o
  call-Does word w closes o v = (
    record w { handler = (close w.handler).1 },
    refl,
    refl,
    record { counted = refl; wide = v.wide; small = omega arith },
  )
  call-Does word w inits o v = (
    record w { handler = (rnd_init w.handler).1 },
    refl,
    refl,
    record { counted = v.counted; wide = v.wide; small = v.small },
  )
  call-Does word w nexts o v = nexts-Does w v
  call-Does word w (poses saved) o v = poses-Does w saved v (word saved)
  call-Does word w (infos flag) o v = (
    record w { handler = (info srv flag w.handler).1 },
    refl,
    refl,
    record { counted = v.counted; wide = v.wide; small = v.small },
  )
  call-Does word w (locks b l) o v = locks-Does w b l v
  call-Does word w _ o v = (w, refl, refl, v)

  -- Whatever is called on an open table in whatever order, the handler answers as a cursor over the
  -- rows of its table does: each call succeeds, delivers the row, ends or is refused as the cursor's,
  -- and none reads through a null pointer. After `close` it is the cursor over no rows. The handler
  -- begins with the row count of its table, below 2 ^ 63, and positions of 8 bytes, and saved
  -- positions are numbers of 64 bits.
  pub replies_refine :
      (cs : List Call) (w : World)
      → PtrWord srv
      → AllOnTable cs
      → Valid srv w.handler
      → replies srv cs w ≡ some (answers (number srv) (view srv w) cs)
  unfolding answers AllOnTable replies
  replies_refine [] w word o v = refl
  replies_refine (c ∷ cs) w word o v =
      let (w', e, same, v') = call-Does word w c o.0 v in
      let rest =
        replies_refine cs w' word o.1 v' ∙ ap (λ k. some (answers (number srv) k cs)) same in
      rw (e, replies) (ap (consed srv (answer (number srv) (view srv w) c).0) rest)
