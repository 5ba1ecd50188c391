-- ===== src/Parquet/Sessions/Opening/Examples.antt =====
-- Two sessions that open a table at once, the first of which gets no share.
use devel_mysql_plugin.Common.{◌+◌, ◌≡◌, refl, none, some, [], ◌∷◌}
use devel_mysql_plugin.Parquet.Handler.{Handler}
use devel_mysql_plugin.Parquet.Registration.{parquet_create_handler, parquet_init}
use devel_mysql_plugin.Parquet.Runs.{server, no_files, table_name}
use devel_mysql_plugin.Parquet.Handler.Calls.{World, nexts}
use devel_mysql_plugin.Parquet.Handler.Cursor.{Answer}
use devel_mysql_plugin.Parquet.Handler.View.{reply}
use devel_mysql_plugin.Parquet.Sessions.{Table, seen}
use devel_mysql_plugin.Parquet.Sessions.Locking.{
  System, outside, entering, locked, missing, leaving, moved, count, lock_step, read_step, new_step,
  initial,
}
use devel_mysql_plugin.Parquet.Sessions.Opening.{
  Site, table_of, start, is_calling, installs_move, makes_move, opens_move, share_move, Reached,
  at_start, by_move,
}
use devel_mysql_plugin.Parquet.Sessions.Opening.Shares.{Serialises}
use devel_mysql_plugin.Parquet.Sessions.Opening.Refine.{opens_serialise, calls_answered}

abbrev bare : Table
bare = record {
  hton = record { state = 0; create = none; flags = 0 };
  handlers = [];
  files = no_files;
  ha_share = none;
}

abbrev new : Handler
new = parquet_create_handler server 1 server.table_share

abbrev two_handlers : Site
two_handlers = record (start bare) {
  hton = (parquet_init server 1 bare.hton).1;
  handlers = new ∷ new ∷ [];
}

two_handlers-Reached : Reached server 1 table_name bare two_handlers
unfolding parquet_init
two_handlers-Reached =
    by_move _ two_handlers (by_move _ _ (by_move (start bare) _ at_start installs_move) makes_move)
      makes_move

abbrev with_locking : System → Site
with_locking l = record two_handlers { locking = l }

abbrev one_opens : System
one_opens = record initial { place = moved initial.place 0 entering }

one_opens-Reached : Reached server 1 table_name bare (with_locking one_opens)
one_opens-Reached = by_move two_handlers _ two_handlers-Reached (opens_move 0 new refl refl)

abbrev both_open : System
both_open = record one_opens { place = moved one_opens.place 1 entering }

both_open-Reached : Reached server 1 table_name bare (with_locking both_open)
unfolding moved
both_open-Reached =
    by_move (with_locking one_opens) _ one_opens-Reached (opens_move 1 new refl refl)

abbrev in_lock : System
in_lock = record both_open { owner = some 0; place = moved both_open.place 0 locked }

in_lock-Reached : Reached server 1 table_name bare (with_locking in_lock)
unfolding moved is_calling
in_lock-Reached =
    by_move (with_locking both_open) _ both_open-Reached
      (share_move 0 in_lock refl (lock_step refl refl))

abbrev none_found : System
none_found = record in_lock { place = moved in_lock.place 0 missing }

none_found-Reached : Reached server 1 table_name bare (with_locking none_found)
unfolding moved is_calling
none_found-Reached =
    by_move (with_locking in_lock) _ in_lock-Reached (share_move 0 none_found refl (read_step refl))

abbrev none_made : System
none_made = record none_found {
  made = none_found.made + count none;
  place = moved none_found.place 0 (leaving none);
}

none_made-Reached : Reached server 1 table_name bare (with_locking none_made)
unfolding moved is_calling
none_made-Reached =
    by_move (with_locking none_found) _ none_found-Reached
      (share_move 0 none_made refl (new_step none refl))

opens_serialise_example : Serialises server 1 table_name bare (with_locking none_made)
opens_serialise_example =
    opens_serialise server 1 table_name bare (with_locking none_made) refl none_made-Reached

-- The second session scans while the first is within `open`.
second_outside : (with_locking one_opens).locking.place 1 ≡ outside
unfolding moved
second_outside = refl

calls_answered_example :
    (a : Answer) × (w : World) × (reply server (seen (table_of (with_locking one_opens)) new) nexts
      ≡ some (a, w))
calls_answered_example =
    calls_answered server 1 table_name bare (with_locking one_opens) 1 new nexts refl refl refl
      one_opens-Reached refl second_outside
