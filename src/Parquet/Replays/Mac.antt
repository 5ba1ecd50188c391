-- ===== src/Parquet/Replays/Mac.antt =====
-- The sessions of Replays on the engine for MySQL.
use native.Mathlib.Nat.{mod-lt}
use devel_mysql_plugin.Common.{◌≡◌, ◌∙◌, ap, refl, arith, some, ◌∷◌}
use devel_mysql_plugin.Libc.Strings.{codes}
use devel_mysql_plugin.Parquet.Sidecar.{make_prq_path}
use devel_mysql_plugin.Parquet.Handler.Calls.{creates, opens}
use devel_mysql_plugin.Parquet.Handler.Cursor.{answers}
use devel_mysql_plugin.Parquet.Handler.Scan.{rows_from}
use devel_mysql_plugin.Parquet.Handler.View.{number}
use devel_mysql_plugin.Parquet.Sessions.{Table, calls}
use devel_mysql_plugin.Parquet.Sessions.Isolation.{own}
use devel_mysql_plugin.Parquet.Mac.Agreement.{SameArrow, both_read}
use devel_mysql_plugin.Parquet.Mac.Sessions.{
  in_state, each_in_state, mac_happen, mac_happen_all, mac_heard, state_after, state_after_all,
  happen_all_same,
}
use devel_mysql_plugin.Parquet.Mac.Sessions.Reading.{mac_created_table_read}
use devel_mysql_plugin.Parquet.Runs.{blank, orders_path, orders, table_name, first}
use devel_mysql_plugin.Parquet.Replays.{
  bounded, read_status, bare, mixed, starting, two_handlers, starting_goes, orders-Loads, between,
  between-Spares, not_sidecar, prepared, created_goes, mixed-AllOnTable_second,
}

same : SameArrow bounded read_status
same r = both_read orders

mac_starting_goes :
    mac_happen_all bounded 1 1 read_status starting bare ≡ some (in_state 1 two_handlers)
unfolding state_after_all state_after
mac_starting_goes =
    happen_all_same bounded 1 1 read_status same starting 0 bare
    ∙ ap (each_in_state 1) starting_goes

mac_created_goes :
    mac_happen_all bounded 1 1 read_status
      (calls 0 (creates table_name (some orders_path)) ∷ between)
      (in_state 1 two_handlers)
    ≡ some (in_state 1 prepared)
unfolding state_after_all state_after
mac_created_goes =
    happen_all_same bounded 1 1 read_status same
      (calls 0 (creates table_name (some orders_path)) ∷ between) 1 two_handlers
    ∙ ap (each_in_state 1) created_goes

mac_created_table_read_example :
    (u' : Table) × (mac_happen bounded 1 1 read_status
        (in_state 1 prepared)
        (calls 1 (opens table_name (some 40)))
      ≡ some u')
    × (mac_heard bounded 1 1 read_status 1 mixed u'
        ≡ some (
            answers
              (number bounded)
              (record { rows = rows_from bounded orders 0 2; next = 0 })
              (own 1 mixed)))
mac_created_table_read_example =
    mac_created_table_read bounded 1 1 read_status same
      (λ saved. mod-lt (first saved) (omega arith)) starting between mixed bare
      (in_state 1 two_handlers) (in_state 1 prepared) 0 1 b'/' 40 blank blank table_name
      (codes "data/o.parquet") orders refl refl mac_starting_goes refl (omega arith) (omega arith)
      (omega arith) refl not_sidecar orders-Loads (omega arith) mac_created_goes
      (between-Spares (make_prq_path 512 table_name)) (between-Spares orders_path) refl
      mixed-AllOnTable_second
