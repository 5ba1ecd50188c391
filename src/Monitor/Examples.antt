-- ===== src/Monitor/Examples.antt =====
-- Runs of the monitor.
use devel_mysql_plugin.Common.{
  ℕ, ◌/◌, ◌^◌, ◌<◌, ◌≡◌, refl, arith, pos, wrap_signed, true, false, none, some, List, [], ◌∷◌,
}
use devel_mysql_plugin.Libc.Strings.{codes}
use devel_mysql_plugin.Monitor.Cpu.{CpuLoad, zero_percent}
use devel_mysql_plugin.Monitor.Memory.{VmStat}
use devel_mysql_plugin.Monitor.Disk.{disk_stat_get}
use devel_mysql_plugin.Monitor.Disk.Totals.{drives_of, sum_read, sum_written}
use devel_mysql_plugin.Monitor.Database.{
  Login, Client, Reply, value, Query, threads_connected, questions_asked, db_metric_get, converse,
  query_ll, atoll, signed_value, digits_value,
}
use devel_mysql_plugin.Monitor.Loop.{Indicators, Monitor, Samples, round}
use devel_mysql_plugin.Monitor.Loop.Rates.{read_rate, disk_spike}

abbrev pages : VmStat
pages = record { free_count = 100000; speculative_count = 31072 }

abbrev counts : List (ℕ × ℕ)
counts = (1000000, 2000) ∷ (3000000, 50) ∷ []

below : (sum_read counts < 2 ^ 64) × (sum_written counts < 2 ^ 64)
unfolding sum_read sum_written
below = (omega arith, omega arith)

abbrev pub login : Login
login = record { g_mon_socket = none; g_mon_user = none; g_mon_password = some (codes "secret") }

abbrev pub reply : Query → Reply
reply threads_connected = value (codes "12")
reply questions_asked = value (codes "5000")

abbrev pub client : Client
client = record { handle_ok = true; connect = λ sock user pass. some reply }

abbrev pub no_client : Client
no_client = record { handle_ok = true; connect = λ sock user pass. none }

pub answered :
    ((db_metric_get login client).ok ≡ true)
    × ((db_metric_get login client).out.questions ≡ pos 5000)
unfolding db_metric_get converse query_ll atoll signed_value digits_value
answered = (refl, refl)

pub refused : (db_metric_get login no_client).ok ≡ false
unfolding db_metric_get converse
refused = refl

abbrev pub loads : List CpuLoad
loads =
    record { state_user = pos 10; state_system = pos 5; state_idle = pos 80; state_nice = pos 0 }
    ∷ []

abbrev pub samples : Samples
samples = record {
  first_loads = some loads;
  later_loads = some loads;
  total_bytes = some (pos 8589934592);
  page_size = 4096;
  vm_stat = some pages;
  drives = some (drives_of counts);
  client = client;
}

abbrev idle : Indicators
idle = record {
  g_cpu_pct = zero_percent;
  g_mem_used_mb = pos 0;
  g_mem_total_mb = pos 0;
  g_disk_read_kbps = pos 0;
  g_disk_write_kbps = pos 0;
  g_db_connections = pos 0;
  g_db_queries_ps = pos 0;
}

abbrev pub monitor : Monitor
monitor = record {
  prev_disk = record { bytes_read = 1000; bytes_written = 2000 };
  prev_questions = pos 4000;
  indicators = idle;
  log = [];
  slept = 0;
}

-- Five seconds later.
abbrev later_counts : List (ℕ × ℕ)
later_counts = (4000000, 900000) ∷ (3500000, 50) ∷ []

abbrev later_reply : Query → Reply
later_reply threads_connected = value (codes "13")
later_reply questions_asked = value (codes "5042")

abbrev later : Samples
later = record samples {
  drives = some (drives_of later_counts);
  client = record { handle_ok = true; connect = λ sock user pass. some later_reply };
}

abbrev no_answer : Samples
no_answer = record samples { drives = none; client = no_client }

disk_spike_example :
    (read_rate (round login 5 no_answer [] monitor) ≡ pos 0)
    × (read_rate (round login 5 samples [] (round login 5 no_answer [] monitor))
        ≡ wrap_signed (2 ^ 64) (pos ((disk_stat_get samples.drives).1.bytes_read / 5 / 1024)))
disk_spike_example = disk_spike login 5 no_answer samples [] [] monitor (omega arith) refl
