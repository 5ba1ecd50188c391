-- ===== src/Monitor/Loop/Pair.antt =====
-- Two rounds that follow each other, and the seconds between the two readings of the counters.
use devel_mysql_plugin.Common.{ℕ, ◌+◌}
use devel_mysql_plugin.Monitor.Cpu.{cpu_usage_measure}
use devel_mysql_plugin.Monitor.Loop.{Monitor, Samples}

-- The seconds slept when a round reads the counters, after the second of the processor times.
abbrev pub read_at : Samples → Monitor → ℕ
read_at s m = m.slept + (cpu_usage_measure s.first_loads s.later_loads).1
