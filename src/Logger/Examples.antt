-- ===== src/Logger/Examples.antt =====
-- Runs of the logger.
use devel_mysql_plugin.Common.{◌+◌, ◌*◌, ◌≤◌, length, ◌≡◌, refl, true, none, some}
use devel_mysql_plugin.Logger.Ram.{SysInfo}
use devel_mysql_plugin.Logger.System.{
  System, finished, joining, os_logger_init, os_logger_deinit, joined, work, Step, init_step,
  deinit_step, work_step, initial, Reachable, at_start, by_step, test_step,
}
use devel_mysql_plugin.Logger.Invariant.{Fits, Reachable-Fits}
use devel_mysql_plugin.Logger.Stop.{deinit_halts}
use devel_mysql_plugin.Logger.Rate.{threads_started, lines_spaced}

abbrev machine : SysInfo
machine = record { load = 98304; totalram = 8388608; freeram = 2097152; mem_unit = 1024 }

abbrev started : System
started = (os_logger_init true initial).1

abbrev asked : System
asked = os_logger_deinit (work (some machine) started)

started-Reachable : Reachable started
started-Reachable = by_step initial started at_start (init_step initial true refl)

asked-Reachable : Reachable asked
unfolding os_logger_init work test_step
asked-Reachable =
    by_step (work (some machine) started) asked
      (by_step started _ started-Reachable (work_step started (some machine)))
      (deinit_step (work (some machine) started) refl)

Reachable-Fits_example : Fits asked.stop_logger asked.thread_running asked.worker asked.plugin
Reachable-Fits_example = Reachable-Fits asked asked-Reachable

asked_joining : asked.plugin ≡ joining
unfolding os_logger_init os_logger_deinit work test_step
asked_joining = refl

deinit_halts_example :
    (work none (work none asked) ≡ record asked { worker = finished })
    × Step (record asked { worker = finished }) (joined (record asked { worker = finished }))
deinit_halts_example = deinit_halts asked none none asked-Reachable asked_joining

lines_spaced_example : 5 * length asked.log ≤ asked.slept + 5 * threads_started asked-Reachable
lines_spaced_example = lines_spaced asked asked-Reachable
