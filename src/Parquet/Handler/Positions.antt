-- ===== src/Parquet/Handler/Positions.antt =====
-- Reading a row again by its saved position.
use devel_mysql_plugin.Common.{
  ℕ, ◌^◌, ◌≤◌, ◌<◌, ◌≡◌, ◌∙◌, ap, refl, arith, Bool, true, false, not, ◌||◌, ◌⊎◌, inl, inr, some,
  List, ℤ, pos, pos_part, ltb_ℤ, wrap_signed,
}
use native.Mathlib.Decide.{dec_lt}
use devel_mysql_plugin.Parquet.HaError.{success, ha_err_end_of_file}
use devel_mysql_plugin.Parquet.Arrow.{ArrowTable}
use devel_mysql_plugin.Parquet.Server.{Server}
use devel_mysql_plugin.Parquet.Row.{fill_row}
use devel_mysql_plugin.Parquet.Handler.{
  Handler, Outcome, done, fill, deliver, rnd_next, rnd_pos, position,
}
use devel_mysql_plugin.Parquet.Handler.Scan.{rnd_next_row}

-- The test of `rnd_pos`, and the row that it reads.
abbrev row_of : ℕ → ℤ
row_of p = wrap_signed (2 ^ 64) (pos p)

abbrev out_of_range : ℤ → ℕ → Bool
out_of_range row_idx total_rows = ltb_ℤ row_idx (pos 0) || not (ltb_ℤ row_idx (pos total_rows))

in_range : (p n : ℕ) → p < n → n < 2 ^ 63 → out_of_range (row_of p) n ≡ false
unfolding wrap_signed
in_range p n lt small = ground arith

row_number : (p n : ℕ) → p < n → n < 2 ^ 63 → pos_part (row_of p) ≡ p
unfolding wrap_signed
row_number p n lt small = ground arith

past_end : (p n : ℕ) → n ≤ p → p < 2 ^ 64 → out_of_range (row_of p) n ≡ true
unfolding wrap_signed
past_end p n le word = ground arith

module _ (srv : Server) where
  -- The pointer of eight bytes that is stored can be read again.
  abbrev pub PtrRoundTrip : Type 0
  PtrRoundTrip = (n : ℕ) → n < 2 ^ 64 → srv.my_get_ptr (srv.my_store_ptr 8 n) 8 ≡ n

  pub rnd_pos_row :
      (saved : List ℕ) (h : Handler) (t : ArrowTable)
      → h.arrow_table ≡ some t
      → h.total_rows < 2 ^ 63
      → srv.my_get_ptr saved h.ref_length < h.total_rows
      → rnd_pos srv saved h
        ≡ some (record {
          rc = success;
          row = some (fill_row srv.table_share t (srv.my_get_ptr saved h.ref_length)).1;
          after = h;
        })
  unfolding rnd_pos fill_row
  rnd_pos_row saved h t e small lt =
      rw (in_range p h.total_rows lt small, row_number p h.total_rows lt small)
        (ap (λ a. deliver h (fill srv a p)) e)
    where
      p : ℕ
      p = srv.my_get_ptr saved h.ref_length

  pub rnd_pos_past :
      (saved : List ℕ) (h : Handler)
      → h.total_rows ≤ srv.my_get_ptr saved h.ref_length
      → srv.my_get_ptr saved h.ref_length < 2 ^ 64
      → rnd_pos srv saved h ≡ done ha_err_end_of_file h
  unfolding rnd_pos
  rnd_pos_past saved h le word =
      rw (past_end (srv.my_get_ptr saved h.ref_length) h.total_rows le word) refl

  -- `rnd_pos` on eight bytes that stand for `p` gives row `p` if the table has it, and otherwise the
  -- end of the file; a number that is negative as an `int64_t` is past the end. The handler stays as
  -- it was, and so does the scan.
  pub rnd_pos_lem :
      (saved : List ℕ) (h : Handler) (t : ArrowTable)
      → h.arrow_table ≡ some t
      → h.total_rows < 2 ^ 63
      → srv.my_get_ptr saved h.ref_length < 2 ^ 64
      → let p = srv.my_get_ptr saved h.ref_length in
        (p < h.total_rows)
          × (rnd_pos srv saved h
              ≡ some
                  (record { rc = success; row = some (fill_row srv.table_share t p).1; after = h }))
        ⊎ (h.total_rows ≤ p) × (rnd_pos srv saved h ≡ done ha_err_end_of_file h)
  rnd_pos_lem saved h t e small word = elim (dec_lt p h.total_rows) [
    | yes lt ↦ inl (lt, rnd_pos_row saved h t e small lt)
    | no ge ↦ inr (omega arith, rnd_pos_past saved h (omega arith) word)
  ]
    where
      p : ℕ
      p = srv.my_get_ptr saved h.ref_length

  -- A row that `rnd_next` delivered is delivered again by `rnd_pos` with the position that it left in
  -- `ref`, also after the scan has gone on, as long as the table is still the same.
  pub rnd_pos-rnd_next :
      (h later : Handler) (t : ArrowTable)
      → PtrRoundTrip
      → h.arrow_table ≡ some t
      → later.arrow_table ≡ some t
      → h.ref_length ≡ 8
      → later.ref_length ≡ 8
      → h.current_row < h.total_rows
      → later.total_rows ≡ h.total_rows
      → h.total_rows < 2 ^ 63
      → (o : Outcome) × (rnd_next srv h ≡ some o)
        × (o.rc ≡ success)
        × (rnd_pos srv (position o.after).ref later
            ≡ some (record { rc = success; row = o.row; after = later }))
  unfolding position
  rnd_pos-rnd_next h later t ptr e e' wide wide' lt same small = (
    _,
    rnd_next_row srv h t e lt,
    refl,
    rnd_pos_row saved later t e' (omega arith) (omega (arith, back))
        ∙ ap
            (λ p.
              some (record {
                rc = success;
                row = some (fill_row srv.table_share t p).1;
                after = later;
              }))
            back,
  )
    where
      saved : List ℕ
      saved = srv.my_store_ptr h.ref_length h.current_row

      back : srv.my_get_ptr saved later.ref_length ≡ h.current_row
      back =
          ap (λ w. srv.my_get_ptr (srv.my_store_ptr w h.current_row) later.ref_length) wide
          ∙ ap (λ w. srv.my_get_ptr (srv.my_store_ptr 8 h.current_row) w) wide'
          ∙ ptr h.current_row (omega arith)
