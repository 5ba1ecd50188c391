-- ===== src/Parquet/Handler/Cursor.antt =====
-- What a table promises to its reader: a list of rows and a place in it.
use devel_mysql_plugin.Common.{ℕ, ◌+◌, Option, none, some, List, [], ◌∷◌, get_elem?}
use devel_mysql_plugin.Parquet.HaError.{HaError, success, ha_err_end_of_file, ha_err_wrong_command}
use devel_mysql_plugin.Parquet.Row.{RowBuffer}
use devel_mysql_plugin.Parquet.Handler.Calls.{
  Call, closes, inits, nexts, poses, writes, updates, deletes, deletes_all,
}

-- The rows of the table that is open, none if there is no table, and the number of the next one.
pub record Cursor : Type 0 where
  pub rows : List RowBuffer
  pub next : ℕ

-- What a call answers: its result, and the row that it delivers.
abbrev pub Answer : Type 0
Answer = HaError × Option RowBuffer

abbrev pub deliver_row : Option RowBuffer → Answer
deliver_row none = (ha_err_end_of_file, none)
deliver_row (some row) = (success, some row)

abbrev pub step_past : Cursor → Option RowBuffer → Cursor
step_past c none = c
step_past c (some row) = record c { next = c.next + 1 }

-- `number` gives the row number that a saved position stands for. Opening a table and the calls of
-- CREATE TABLE and DROP TABLE are not the cursor's.
module _ (number : List ℕ → ℕ) where
  unfoldable pub answer : Cursor → Call → Answer × Cursor
  answer c inits = ((success, none), record c { next = 0 })
  answer c nexts = (deliver_row (get_elem? c.rows c.next), step_past c (get_elem? c.rows c.next))
  answer c (poses saved) = (deliver_row (get_elem? c.rows (number saved)), c)
  answer c closes = ((success, none), record { rows = []; next = 0 })
  answer c writes = ((ha_err_wrong_command, none), c)
  answer c updates = ((ha_err_wrong_command, none), c)
  answer c deletes = ((ha_err_wrong_command, none), c)
  answer c deletes_all = ((ha_err_wrong_command, none), c)
  answer c _ = ((success, none), c)

  unfoldable pub answers : Cursor → List Call → List Answer
  answers c [] = []
  answers c (call ∷ calls) = let (a, c') = answer c call in a ∷ answers c' calls
