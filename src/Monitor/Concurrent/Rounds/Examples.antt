-- ===== src/Monitor/Concurrent/Rounds/Examples.antt =====
-- Rounds of the system with the interval set in between.
use devel_mysql_plugin.Common.{◌+◌, ◌-◌, ◌≤◌, ◌≡◌, arith, pos, List, [], ◌∷◌}
use devel_mysql_plugin.Monitor.Loop.{Samples}
use devel_mysql_plugin.Monitor.Variables.{seconds, rounds}
use devel_mysql_plugin.Monitor.Variables.Ledger.{Grows, rests, setting, missing, asking}
use devel_mysql_plugin.Monitor.Examples.{login, samples, no_client, answered, refused}
use devel_mysql_plugin.Monitor.Runs.{nearest, nearest-KeepsBounds}
use devel_mysql_plugin.Monitor.Concurrent.{opened}
use devel_mysql_plugin.Monitor.Concurrent.Examples.{ready, ready_testing}
use devel_mysql_plugin.Monitor.Concurrent.Rounds.Turns.{
  Turn, measures, resets, thread_of, deeds_of, system_reported, turns_accounted,
}

-- A round, then the interval is set to 0, which is out of bounds, then a round without the server.
abbrev outage : Samples
outage = record samples { client = no_client }

abbrev some_turns : List Turn
some_turns = measures samples ∷ resets (pos 0) ∷ measures outage ∷ []

known_before : (opened login samples).prev_questions ≡ pos 5000
unfolding opened
known_before = rw answered.0 answered.1

some_turns-Grows :
    Grows login 5000 (deeds_of login nearest some_turns ready.g_interval_sec) (5000 - 5000 + 0)
unfolding deeds_of
some_turns-Grows =
    asking 5000 5000 0 samples _ _ answered.0 answered.1
      (setting 5000 0 (pos 0) _ (missing 5000 0 outage _ [] refused (rests 5000)))

turns_accounted_example :
    (system_reported login nearest some_turns ready ≤ 5000 - 5000 + 0)
    × (5000 - 5000 + 0 + rounds (deeds_of login nearest some_turns ready.g_interval_sec)
        ≤ system_reported login nearest some_turns ready
          + seconds login nearest
              (deeds_of login nearest some_turns ready.g_interval_sec)
              (thread_of ready (opened login samples)))
turns_accounted_example =
    turns_accounted login nearest some_turns ready (opened login samples) 5000 (5000 - 5000 + 0)
      nearest-KeepsBounds ready_testing.0 ready_testing.1 known_before
      (omega (arith, ready_testing.2)) some_turns-Grows
