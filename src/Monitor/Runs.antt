-- ===== src/Monitor/Runs.antt =====
-- A server that keeps its variables within their bounds.
use devel_mysql_plugin.Common.{ℕ, arith, ℤ, pos_part, min, max}
use devel_mysql_plugin.Monitor.Variables.{IntVar}
use devel_mysql_plugin.Monitor.Variables.Ledger.{KeepsBounds}

-- A server that stores the nearest number within the bounds.
abbrev pub nearest : IntVar → ℤ → ℕ
nearest v z = max v.min_value (min v.max_value (pos_part z))

pub nearest-KeepsBounds : KeepsBounds nearest
nearest-KeepsBounds v ordered z = (omega arith, omega (arith, ordered))
