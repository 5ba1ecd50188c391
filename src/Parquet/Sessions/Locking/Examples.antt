-- ===== src/Parquet/Sessions/Locking/Examples.antt =====
-- Two sessions that open a table at once.
use devel_mysql_plugin.Common.{ℕ, ◌+◌, ◌≤◌, ◌<◌, ◌≢◌, ◌≡◌, refl, true, some}
use devel_mysql_plugin.Parquet.Sessions.Locking.{
  Step, System, entering, locked, missing, making, leaving, returned, moved, count, call_step,
  lock_step, read_step, new_step, set_step, initial, Reachable, at_start, by_step,
}
use devel_mysql_plugin.Parquet.Sessions.Locking.Exclusion.{is_inside}
use devel_mysql_plugin.Parquet.Sessions.Locking.Sharing.{sessions_one_share}
use devel_mysql_plugin.Parquet.Sessions.Locking.Progress.{steps_left, lock_given_back}

-- Both are before the lock; then the first one has it, and finds no share.
abbrev both : System
both = record initial { place = moved (moved initial.place 0 entering) 1 entering }

abbrev in_lock : System
in_lock = record both { owner = some 0; place = moved both.place 0 locked }

abbrev none_found : System
none_found = record in_lock { place = moved in_lock.place 0 missing }

abbrev new_made : System
new_made = record none_found {
  made = none_found.made + count (some 40);
  place = moved none_found.place 0 (making 40);
}

abbrev share_set : System
share_set = record new_made {
  ha_share = some 40;
  place = moved new_made.place 0 (leaving (some 40));
}

both-Reachable : Reachable both
unfolding moved
both-Reachable = by_step _ both 1 (by_step initial _ 0 at_start (call_step refl)) (call_step refl)

in_lock-Reachable : Reachable in_lock
unfolding moved
in_lock-Reachable = by_step both in_lock 0 both-Reachable (lock_step refl refl)

none_found-Reachable : Reachable none_found
unfolding moved
none_found-Reachable = by_step in_lock none_found 0 in_lock-Reachable (read_step refl)

new_made-Reachable : Reachable new_made
unfolding moved
new_made-Reachable = by_step none_found new_made 0 none_found-Reachable (new_step (some 40) refl)

making_forty : new_made.place 0 ≡ making 40
unfolding moved
making_forty = refl

share_set-Reachable : Reachable share_set
share_set-Reachable = by_step new_made share_set 0 new_made-Reachable (set_step 40 making_forty)

sessions_one_share_example :
    ((i j : ℕ)
      → is_inside (share_set.place i) ≡ true
      → is_inside (share_set.place j) ≡ true
      → i ≡ j)
    × (share_set.made ≤ 1)
    × ((i s : ℕ) → share_set.place i ≡ returned (some s) → share_set.ha_share ≡ some s)
sessions_one_share_example = sessions_one_share share_set share_set-Reachable

lock_given_back_example :
    (steps_left (share_set.place 0) ≤ 4)
    × ((u : System) × Step share_set 0 u)
    × ((u : System) → Step share_set 0 u → steps_left (u.place 0) < steps_left (share_set.place 0))
    × ((j : ℕ) (u : System)
        → 0 ≢ j
        → Step share_set j u
        → (u.owner ≡ some 0) × (u.place 0 ≡ share_set.place 0))
lock_given_back_example = lock_given_back share_set 0 share_set-Reachable refl
