-- ===== src/Monitor/Concurrent/Examples.antt =====
-- A life of the plugin whose `plugin_deinit` comes while the thread assigns the indicators.
use devel_mysql_plugin.Common.{
  ℕ, zero, suc, ◌+◌, ◌≤◌, ◌≡◌, refl, arith, true, some, List, [], ◌∷◌, length,
}
use devel_mysql_plugin.Monitor.Loop.{remain_of, kbps, qps}
use devel_mysql_plugin.Monitor.Disk.{disk_stat_get}
use devel_mysql_plugin.Monitor.Database.{db_metric_get}
use devel_mysql_plugin.Monitor.Concurrent.Rounds.Change.{interval_change}
use devel_mysql_plugin.Monitor.Examples.{login, samples, loads}
use devel_mysql_plugin.Monitor.Runs.{nearest}
use devel_mysql_plugin.Monitor.Concurrent.{
  System, opened, carried, testing, joining, finished, plugin_init_create, plugin_init_return,
  plugin_deinit_ask, assign, assigned, work, work_at, create_step, return_step, ask_step, work_step,
  initial, Reachable, at_start, by_step,
}
use devel_mysql_plugin.Monitor.Concurrent.Rounds.{works, measured_lines}
use devel_mysql_plugin.Monitor.Concurrent.Shown.{visible, latest, indicators_shown}
use devel_mysql_plugin.Monitor.Concurrent.Protocol.{told_all, stage_of}
use devel_mysql_plugin.Monitor.Concurrent.Protocol.Kept.{log_in_order}
use devel_mysql_plugin.Monitor.Concurrent.Drain.{Act, sets, acts, thread_steps}
use devel_mysql_plugin.Monitor.Concurrent.Drain.Wait.{plugin_deinit_waits}

by_works :
    (n : ℕ) (t : System)
    → Reachable login nearest t
    → Reachable login nearest (works login n samples t)
unfolding works
by_works zero t r = r
by_works (suc n) t r = by_works n (work login samples t) (by_step t _ r (work_step t samples))

-- The thread writes its first line before `plugin_init` writes its own, and its line of a round too.
abbrev created : System
created = plugin_init_create 0 initial

abbrev at_work : System
at_work = plugin_init_return (works login 2 samples created)

-- Three of seven indicators are assigned.
abbrev midway : System
midway = works login 8 samples at_work

abbrev asked : System
asked = plugin_deinit_ask midway

created-Reachable : Reachable login nearest created
created-Reachable = by_step initial created at_start (create_step initial 0 refl)

at_work-Reachable : Reachable login nearest at_work
unfolding plugin_init_create works work work_at
at_work-Reachable =
    by_step (works login 2 samples created) at_work (by_works 2 created created-Reachable)
      (return_step (works login 2 samples created) refl)

midway-Reachable : Reachable login nearest midway
midway-Reachable = by_works 8 at_work at_work-Reachable

asked-Reachable : Reachable login nearest asked
unfolding plugin_init_create plugin_init_return works work work_at assign assigned
asked-Reachable = by_step midway asked midway-Reachable (ask_step midway refl)

asked_joining : asked.phase ≡ joining
unfolding plugin_deinit_ask
asked_joining = refl

indicators_shown_example : midway.indicators ≡ visible midway.place (latest midway.log)
indicators_shown_example = indicators_shown midway midway-Reachable

log_in_order_example : told_all asked.log ≡ some (stage_of asked.phase asked.place)
log_in_order_example = log_in_order asked asked-Reachable

steps : ℕ → List Act
steps zero = sets 60 ∷ []
steps (suc n) = Act.works samples ∷ steps n

sixteen : 16 ≤ thread_steps (steps 16)
unfolding thread_steps steps
sixteen = omega arith

plugin_deinit_waits_example :
    ((acts login (steps 16) asked).place ≡ finished)
    × (length (measured_lines asked.log)
        ≤ length (measured_lines (acts login (steps 16) asked).log))
    × (length (measured_lines (acts login (steps 16) asked).log)
        ≤ length (measured_lines asked.log) + 1)
    × ((acts login (steps 16) asked).slept ≤ asked.slept + 1)
plugin_deinit_waits_example =
    plugin_deinit_waits login nearest asked (steps 16) asked-Reachable asked_joining sixteen

abbrev pub ready : System
ready = works login 2 samples created

pub ready_testing :
    (ready.place ≡ testing (opened login samples))
    × (ready.g_running ≡ true)
    × (ready.g_interval_sec ≡ 5)
unfolding works work work_at plugin_init_create
ready_testing = (refl, refl, refl)

-- The interval is set from 5 to 3600.
interval_change_example :
    let v = works login 14 samples ready in
    let u = works login (suc (remain_of ready.g_interval_sec)) samples v in
    let w = works login 14 samples (record u { g_interval_sec = 3600 }) in
    let old = (disk_stat_get samples.drives).1 in
    let new = (disk_stat_get samples.drives).1 in
    (w.slept ≡ v.slept + ready.g_interval_sec)
    × (w.indicators.g_disk_read_kbps ≡ kbps 3600 old.bytes_read new.bytes_read)
    × (w.indicators.g_disk_write_kbps ≡ kbps 3600 old.bytes_written new.bytes_written)
    × (w.indicators.g_db_queries_ps
        ≡ qps 3600
            (carried login samples (opened login samples)).prev_questions
            (db_metric_get login samples.client))
interval_change_example =
    interval_change login samples samples loads ready (opened login samples) 3600 ready_testing.0
      ready_testing.1 (omega (arith, ready_testing.2)) refl
