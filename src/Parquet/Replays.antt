-- ===== src/Parquet/Replays.antt =====
-- Longer runs of the engine on the small server: an open table as a cursor, the two versions, and a
-- table with two sessions.
mod Mac
use native.Mathlib.Nat.{mod-lt}
use devel_mysql_plugin.Common.{
  ℕ, ◌%◌, ◌^◌, ◌≡◌, ◌≢◌, refl, arith, Bool, true, Option, none, some, List, [], ◌∷◌,
}
use devel_mysql_plugin.Parquet.Arrow.{ArrowTable}
use devel_mysql_plugin.Libc.Strings.{codes, c_string}
use devel_mysql_plugin.Libc.Files.{same_name, overwrite, fgets, line}
use devel_mysql_plugin.Parquet.Sidecar.{
  create, write_prq_meta, read_prq_meta, make_prq_path, strip_newline, chosen_path,
}
use devel_mysql_plugin.Parquet.Handler.{
  Handler, construct, ha_open, open_path, parquet_path, get_share,
}
use devel_mysql_plugin.Parquet.Handler.Calls.{apply, creates}
use devel_mysql_plugin.Parquet.Registration.{parquet_init, parquet_create_handler}
use devel_mysql_plugin.Parquet.Sessions.{happen}
use devel_mysql_plugin.Parquet.Handler.Lifecycle.{Loads}
use devel_mysql_plugin.Parquet.Handler.Scan.{rows_from}
use devel_mysql_plugin.Parquet.Sidecar.{default_path}
use devel_mysql_plugin.Parquet.Handler.{rnd_init, write_row}
use devel_mysql_plugin.Parquet.Sessions.Sidecars.{Spares}
use devel_mysql_plugin.Parquet.Sessions.Creation.{created_table_read}
use devel_mysql_plugin.Parquet.Sessions.Isolation.{own, heard, session_answers}
use devel_mysql_plugin.Parquet.Server.{Server}
use devel_mysql_plugin.Parquet.Handler.Calls.{Call, opens, closes, inits, nexts, poses, writes, run}
use devel_mysql_plugin.Parquet.Handler.Cursor.{answers}
use devel_mysql_plugin.Parquet.Handler.View.{
  OnTable, AllOnTable, Valid, contents, replies, view, number,
}
use devel_mysql_plugin.Parquet.Handler.Refine.{replies_refine}
use devel_mysql_plugin.Parquet.Mac.Calls.{mac_run, mac_replies}
use devel_mysql_plugin.Parquet.Mac.Agreement.{both_read, mac_run-run}
use devel_mysql_plugin.Parquet.Sessions.{Table, Event, installs, makes, calls, happen_all}
use devel_mysql_plugin.Parquet.Sessions.Sharing.{Each, sessions_share}
use devel_mysql_plugin.Parquet.Runs.{
  blank, orders_path, orders, server, data_files, table_name, ready, ready_world, first,
}

abbrev bounded : Server
bounded = record server { my_get_ptr = λ saved len. first saved % 2 ^ 64 }

abbrev browsing : List Call
browsing = nexts ∷ nexts ∷ nexts ∷ poses (1 ∷ []) ∷ writes ∷ closes ∷ nexts ∷ []

ready-Valid : Valid bounded ready
unfolding contents rows_from
ready-Valid = record { counted = refl; wide = refl; small = omega arith }

browsing-AllOnTable : AllOnTable browsing
unfolding AllOnTable OnTable
browsing-AllOnTable = (tt, (tt, (tt, (tt, (tt, (tt, (tt, tt)))))))

replies_refine_example :
    replies bounded browsing ready_world
    ≡ some (answers (number bounded) (view bounded ready_world) browsing)
replies_refine_example =
    replies_refine bounded browsing ready_world (λ saved. mod-lt (first saved) (omega arith))
      browsing-AllOnTable ready-Valid

-- Mac's ReadTable for the same file.
abbrev read_status : ℕ → Bool × Option ArrowTable
read_status r = (true, some orders)

abbrev a_run : List Call
a_run = opens table_name (some 40) ∷ inits ∷ nexts ∷ poses (0 ∷ []) ∷ closes ∷ []

mac_run-run_example :
    (mac_run server read_status a_run ready_world ≡ run server a_run ready_world)
    × (mac_replies server read_status a_run ready_world ≡ replies server a_run ready_world)
mac_run-run_example = mac_run-run server read_status (λ r. both_read orders) a_run ready_world

abbrev bare : Table
bare = record {
  hton = record { state = 0; create = none; flags = 0 };
  handlers = [];
  files = data_files;
  ha_share = none;
}

abbrev two_sessions : List Event
two_sessions =
    installs
    ∷ makes
    ∷ makes
    ∷ calls 0 (opens table_name (some 40))
    ∷ calls 1 (opens table_name (some 41))
    ∷ calls 1 nexts
    ∷ []

sessions_share_example :
    (t' : Table) × (happen_all server 1 two_sessions bare ≡ some t') × Each t'.ha_share t'.handlers
sessions_share_example = sessions_share server 1 two_sessions bare refl refl

-- Two sessions have opened the table. Then the first one scans while the other one does so and closes.
abbrev opening : List Event
opening =
    installs
    ∷ makes
    ∷ makes
    ∷ calls 0 (creates table_name (some orders_path))
    ∷ calls 0 (opens table_name (some 40))
    ∷ calls 1 (opens table_name (some 41))
    ∷ []

abbrev mixed : List Event
mixed =
    calls 0 nexts
    ∷ calls 1 nexts
    ∷ calls 0 nexts
    ∷ calls 1 closes
    ∷ makes
    ∷ calls 0 (poses (0 ∷ []))
    ∷ []

abbrev in_session : Handler
in_session = record ready { share = some 40 }

abbrev both_open : Table
both_open = record {
  hton = record { state = 0; create = some (parquet_create_handler bounded 1); flags = 1 };
  handlers = in_session ∷ in_session ∷ [];
  files = (create 512 (λ p. true) table_name (some orders_path) data_files).1;
  ha_share = some 40;
}

opening_goes : happen_all bounded 1 opening bare ≡ some both_open
unfolding happen_all happen parquet_init parquet_create_handler construct apply ha_open open_path
    parquet_path get_share create write_prq_meta read_prq_meta make_prq_path same_name overwrite
    fgets line strip_newline c_string chosen_path
opening_goes = refl

mixed-AllOnTable : AllOnTable (own 0 mixed)
unfolding own AllOnTable OnTable
mixed-AllOnTable = (tt, (tt, (tt, tt)))

session_answers_example :
    heard bounded 1 0 mixed both_open
    ≡ some (
        answers
          (number bounded)
          (record { rows = contents bounded (some orders); next = 0 })
          (own 0 mixed))
session_answers_example =
    session_answers bounded 1 (λ saved. mod-lt (first saved) (omega arith)) 0 opening mixed bare
      both_open in_session refl refl opening_goes refl (omega arith) mixed-AllOnTable

-- The second session opens the table that the first one creates.
abbrev starting : List Event
starting = installs ∷ makes ∷ makes ∷ []

abbrev two_handlers : Table
two_handlers = record bare {
  hton = record { state = 0; create = some (parquet_create_handler bounded 1); flags = 1 };
  handlers = blank ∷ blank ∷ [];
}

starting_goes : happen_all bounded 1 starting bare ≡ some two_handlers
unfolding happen_all happen parquet_init parquet_create_handler construct
starting_goes = refl

orders-Loads : Loads bounded bare.files orders_path orders
unfolding same_name
orders-Loads = record { file = 1; reader = 1; opened = refl; parsed = refl; was_read = refl }

not_sidecar : make_prq_path 512 table_name ≢ orders_path
unfolding make_prq_path c_string
not_sidecar e = ground (arith, e)

-- In between a third session starts, and the first one tries to write.
abbrev between : List Event
between = makes ∷ calls 0 writes ∷ calls 1 inits ∷ []

between-Spares : (path : List ℕ) → Spares bounded 1 path between
between-Spares path = (tt, (tt, tt))

abbrev prepared : Table
prepared = record two_handlers {
  handlers = blank ∷ blank ∷ blank ∷ [];
  files = (create 512 (λ p. true) table_name (some orders_path) data_files).1;
}

created_goes :
    happen_all bounded 1 (calls 0 (creates table_name (some orders_path)) ∷ between) two_handlers
    ≡ some prepared
unfolding happen_all happen construct apply rnd_init write_row ha_open open_path parquet_path
    get_share create write_prq_meta read_prq_meta make_prq_path same_name overwrite fgets line
    strip_newline c_string chosen_path parquet_create_handler default_path
created_goes = refl

mixed-AllOnTable_second : AllOnTable (own 1 mixed)
unfolding own AllOnTable OnTable
mixed-AllOnTable_second = (tt, (tt, tt))

created_table_read_example :
    (u' : Table) × (happen bounded 1 prepared (calls 1 (opens table_name (some 40))) ≡ some u')
    × (heard bounded 1 1 mixed u'
        ≡ some (
            answers
              (number bounded)
              (record { rows = rows_from bounded orders 0 2; next = 0 })
              (own 1 mixed)))
created_table_read_example =
    created_table_read bounded 1 (λ saved. mod-lt (first saved) (omega arith)) starting between
      mixed bare two_handlers prepared 0 1 b'/' 40 blank blank table_name (codes "data/o.parquet")
      orders refl refl starting_goes refl (omega arith) (omega arith) (omega arith) refl not_sidecar
      orders-Loads (omega arith) created_goes (between-Spares (make_prq_path 512 table_name))
      (between-Spares orders_path) refl mixed-AllOnTable_second
