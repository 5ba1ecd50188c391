-- ===== src/Monitor/Loop.antt =====
-- `monitor_thread_func`: the thread's variables, the indicators that SHOW STATUS reads, and a round
-- of the loop. The arithmetic on `long long` is that of the integers, for its overflow is undefined.
pub mod Rates
pub mod Pair
pub mod Period
use devel_mysql_plugin.Common.{
  ℕ, zero, suc, ◌+◌, ◌-◌, ◌*◌, ◌/◌, ◌^◌, ℤ, pos, ◌-ℤ◌, ltb_ℤ, tdiv, wrap_signed, Bool, true, false,
  not, ◌&&◌, Option, none, some, List, [], ◌∷◌, leb, ltb, if◌then◌else◌,
}
use devel_mysql_plugin.Monitor.Cpu.{CpuLoad, Percent, zero_percent, cpu_usage_measure}
use devel_mysql_plugin.Monitor.Memory.{VmStat, MemUsage, mem_usage_get}
use devel_mysql_plugin.Monitor.Disk.{Drive, DiskStat, no_bytes, disk_stat_get}
use devel_mysql_plugin.Monitor.Database.{DbMetric, Login, Client, Fetched, db_metric_get}

-- The indicators `g_cpu_pct` to `g_db_queries_ps`. The line that a round logs holds the same values.
pub record Indicators : Type 0 where
  pub g_cpu_pct : Percent
  pub g_mem_used_mb : ℤ
  pub g_mem_total_mb : ℤ
  pub g_disk_read_kbps : ℤ
  pub g_disk_write_kbps : ℤ
  pub g_db_connections : ℤ
  pub g_db_queries_ps : ℤ

-- `prev_disk` and `prev_questions`, the indicators, the lines logged by rounds, the latest first, and
-- the seconds slept.
pub record Monitor : Type 0 where
  pub prev_disk : DiskStat
  pub prev_questions : ℤ
  pub indicators : Indicators
  pub log : List Indicators
  pub slept : ℕ

-- What the system and the server answer in a round.
pub record Samples : Type 0 where
  pub first_loads : Option (List CpuLoad)
  pub later_loads : Option (List CpuLoad)
  pub total_bytes : Option ℤ
  pub page_size : ℕ
  pub vm_stat : Option VmStat
  pub drives : Option (List Drive)
  pub client : Client

-- `r_kbps` and `w_kbps`, from the counters of the last round and of this one.
unfoldable pub kbps : ℕ → ℕ → ℕ → ℤ
unfolding wrap_signed
kbps interval prev cur =
    if leb prev cur then wrap_signed (2 ^ 64) (pos ((cur - prev) / interval / 1024)) else pos 0

-- `qps`.
unfoldable pub qps : ℕ → ℤ → Fetched → ℤ
unfolding tdiv ◌-ℤ◌
qps interval prev db =
    if db.ok && not (ltb_ℤ db.out.questions prev)
    then tdiv (db.out.questions -ℤ prev) interval
    else pos 0

-- The loop that waits out the interval, `i` from the end: one reading of `g_running` before each
-- second. The seconds slept. Readings that are not listed are false.
unfoldable pub naps : ℕ → List Bool → ℕ
naps zero running = 0
naps (suc remain) [] = 0
naps (suc remain) (r ∷ running) = let rest = naps remain running in if r then suc rest else 0

-- `remain`, for an interval that is at least 1, as the system variable sees to.
unfoldable pub remain_of : ℕ → ℕ
remain_of interval = let remain = interval - 1 in if ltb remain 1 then 1 else remain

module _ (login : Login) where
  -- What precedes the loop.
  unfoldable pub start : Option (List Drive) → Client → Indicators → Monitor
  start drives client indicators =
      let m = db_metric_get login client in
      record {
        prev_disk = (disk_stat_get drives).1;
        prev_questions = if m.ok then m.out.questions else pos 0;
        indicators = indicators;
        log = [];
        slept = 0;
      }

  -- The indicators of a round.
  unfoldable pub measure : ℕ → Samples → Monitor → Indicators
  measure interval s m =
      let mem = mem_usage_get (pos 0) (pos 0) s.total_bytes s.page_size s.vm_stat in
      let cur_disk = (disk_stat_get s.drives).1 in
      let db = db_metric_get login s.client in
      record {
        g_cpu_pct = (cpu_usage_measure s.first_loads s.later_loads).0;
        g_mem_used_mb = mem.used_mb;
        g_mem_total_mb = mem.total_mb;
        g_disk_read_kbps = kbps interval m.prev_disk.bytes_read cur_disk.bytes_read;
        g_disk_write_kbps = kbps interval m.prev_disk.bytes_written cur_disk.bytes_written;
        g_db_connections = db.out.connections;
        g_db_queries_ps = qps interval m.prev_questions db;
      }

  -- The body of the loop. `running` is what `g_running` reads while it waits.
  unfoldable pub round : ℕ → Samples → List Bool → Monitor → Monitor
  round interval s running m =
      let db = db_metric_get login s.client in
      let now = measure interval s m in
      record {
        prev_disk = (disk_stat_get s.drives).1;
        prev_questions = if db.ok then db.out.questions else m.prev_questions;
        indicators = now;
        log = now ∷ m.log;
        slept =
            m.slept
            + (cpu_usage_measure s.first_loads s.later_loads).1
            + naps (remain_of interval) running;
      }
