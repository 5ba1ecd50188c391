-- ===== src/Parquet/Handler/View.antt =====
-- An open table as a cursor over its rows: what the two have to do with each other.
use devel_mysql_plugin.Common.{
  ℕ, zero, suc, ◌+◌, ◌^◌, ◌<◌, ◌≡◌, ◌∙◌, ap, sym, refl, arith, Option, none, some, List, [], ◌∷◌,
  length, get_elem?,
}
use devel_mysql_plugin.Parquet.HaError.{HaError}
use devel_mysql_plugin.Parquet.Arrow.{ArrowTable}
use devel_mysql_plugin.Parquet.Server.{Server}
use devel_mysql_plugin.Parquet.Row.{RowBuffer, fill_row}
use devel_mysql_plugin.Parquet.Handler.{Handler, Outcome, rnd_next, rnd_pos}
use devel_mysql_plugin.Parquet.Handler.Calls.{
  World, Call, creates, drops, opens, nexts, poses, apply,
}
use devel_mysql_plugin.Parquet.Handler.Safety.{Counted, Inv}
use devel_mysql_plugin.Parquet.Handler.Scan.{rows_from}
use devel_mysql_plugin.Parquet.Handler.Cursor.{Cursor, Answer}

-- The calls on a table that is open.
unfoldable pub OnTable : Call → Type 0
OnTable (creates _ _) = ⊥
OnTable (drops _) = ⊥
OnTable (opens _ _) = ⊥
OnTable _ = Unit {0}

unfoldable pub AllOnTable : List Call → Type 0
AllOnTable [] = Unit {0}
AllOnTable (c ∷ cs) = OnTable c × AllOnTable cs

module _ (srv : Server) where
  -- A call with its answer.
  abbrev pub on_row : World → Option Outcome → Option (Answer × World)
  on_row w none = none
  on_row w (some o) = some ((o.rc, o.row), record w { handler = o.after })

  abbrev pub without_row : Option (HaError × World) → Option (Answer × World)
  without_row none = none
  without_row (some (rc, w)) = some ((rc, none), w)

  unfoldable pub reply : World → Call → Option (Answer × World)
  reply w nexts = on_row w (rnd_next srv w.handler)
  reply w (poses saved) = on_row w (rnd_pos srv saved w.handler)
  reply w c = without_row (apply srv w c)

  abbrev pub consed : Answer → Option (List Answer) → Option (List Answer)
  consed a none = none
  consed a (some rest) = some (a ∷ rest)

  -- The answers to some calls, in order; `none` if one reads through a null pointer.
  unfoldable pub replies : List Call → World → Option (List Answer)
  replies [] w = some []
  replies (c ∷ cs) w = elim (reply w c) [ none ↦ none | some (a, w') ↦ consed a (replies cs w') ]

  -- The cursor that a handler stands for.
  unfoldable pub contents : Option ArrowTable → List RowBuffer
  contents none = []
  contents (some t) = rows_from srv t 0 t.num_rows

  abbrev pub view : World → Cursor
  view w = record { rows = contents w.handler.arrow_table; next = w.handler.current_row }

  abbrev pub number : List ℕ → ℕ
  number saved = srv.my_get_ptr saved 8

  -- A handler as every call leaves it, with fewer than 2 ^ 63 rows.
  pub record Valid (h : Handler) : Type 0 where
    pub counted : h.total_rows ≡ length (contents h.arrow_table)
    pub wide : h.ref_length ≡ 8
    pub small : h.total_rows < 2 ^ 63

  pub length-rows_from : (t : ArrowTable) (i n : ℕ) → length (rows_from srv t i n) ≡ n
  unfolding rows_from
  length-rows_from t i zero = refl
  length-rows_from t i (suc n) = ap suc (length-rows_from t (i + 1) n)

  Counted-length : (a : Option ArrowTable) (n : ℕ) → Counted a n → n ≡ length (contents a)
  unfolding contents
  Counted-length none n c = c
  Counted-length (some t) n c = c ∙ sym (length-rows_from t 0 t.num_rows)

  -- The invariant of the handler is enough for a table that is not too large.
  pub Inv-Valid : (h : Handler) → Inv h → h.total_rows < 2 ^ 63 → Valid h
  Inv-Valid h v small = record {
    counted = Counted-length h.arrow_table h.total_rows v.counted;
    wide = v.wide;
    small = small;
  }

  get_elem?-rows_from :
      (t : ArrowTable) (i n k : ℕ)
      → k < n
      → get_elem? (rows_from srv t i n) k ≡ some (fill_row srv.table_share t (i + k)).1
  unfolding rows_from
  get_elem?-rows_from t i zero k h = absurd (omega arith)
  get_elem?-rows_from t i (suc n) zero h =
      ap (λ j. some (fill_row srv.table_share t j).1) (omega arith)
  get_elem?-rows_from t i (suc n) (suc k) h =
      get_elem?-rows_from t (i + 1) n k (omega arith)
      ∙ ap (λ j. some (fill_row srv.table_share t j).1) (omega arith)

  pub contents_at :
      (a : Option ArrowTable) (k : ℕ)
      → k < length (contents a)
      → (t : ArrowTable) × (a ≡ some t)
        × (get_elem? (contents a) k ≡ some (fill_row srv.table_share t k).1)
  unfolding contents
  contents_at none k h = absurd (omega arith)
  contents_at (some t) k h =
      let below : k < t.num_rows = omega (arith, length-rows_from t 0 t.num_rows) in
      (
        t,
        refl,
        get_elem?-rows_from t 0 t.num_rows k below
            ∙ ap (λ j. some (fill_row srv.table_share t j).1) (omega arith),
      )

  -- The positions that the server hands back are numbers of 64 bits.
  abbrev pub PtrWord : Type 0
  PtrWord = (saved : List ℕ) → srv.my_get_ptr saved 8 < 2 ^ 64
