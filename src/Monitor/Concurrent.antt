-- ===== src/Monitor/Concurrent.antt =====
-- The server and `monitor_thread_func` as one system, a step for each access of the thread to what
-- they share: the flag, the interval, each indicator and the error log.
pub mod Places
pub mod Shown
pub mod Protocol
pub mod Rounds
pub mod Drain
pub mod Interval
mod Examples
use devel_mysql_plugin.Common.{
  ℕ, zero, suc, ◌+◌, ◌≡◌, ℤ, pos, Bool, true, false, ◌&&◌, List, [], ◌∷◌, ltb, if◌then◌else◌,
}
use devel_mysql_plugin.Monitor.Cpu.{zero_percent, cpu_usage_measure}
use devel_mysql_plugin.Monitor.Memory.{mem_usage_get}
use devel_mysql_plugin.Monitor.Disk.{DiskStat, disk_stat_get}
use devel_mysql_plugin.Monitor.Database.{Login, db_metric_get}
use devel_mysql_plugin.Monitor.Loop.{Indicators, Samples, kbps, qps, remain_of}
use devel_mysql_plugin.Monitor.Variables.{IntVar, interval_var}

-- What the plugin writes to the error log, by the call that writes it.
pub data Line : Type 0 where
  thread_started initialized create_failed : ℕ → Line
  measured : Indicators → Line
  thread_stopped deinitialized : Line

-- The variables of the thread that outlive a round.
pub record Prev : Type 0 where
  pub prev_disk : DiskStat
  pub prev_questions : ℤ

-- The indicators in the order of their assignments.
pub data Field : Type 0 where
  cpu_pct mem_used mem_total disk_read disk_write connections queries_ps : Field

-- Where the thread is: there is none; before its first line; before the loop; at the test of the loop;
-- before the samples of a round; before each reading of the interval, with the answers of the round and
-- the rates so far; before each assignment of an indicator; before the line of the round; before
-- `remain`; at the test of the waiting loop, with `i` and `remain`; before its last line; or returned.
pub data Place : Type 0 where
  absent entering opening ending finished : Place
  testing sampling resting : Prev → Place
  reading : Samples → Prev → Place
  writing : Samples → Prev → ℤ → Place
  asking : Samples → Prev → ℤ → ℤ → Place
  publishing : Field → Indicators → Prev → Place
  logging : Indicators → Prev → Place
  napping : ℕ → ℕ → Prev → Place

-- Where the server is: the plugin is not loaded; `plugin_init` has created the thread; it has returned;
-- or `plugin_deinit` waits to join.
pub data Phase : Type 0 where
  unloaded initialising loaded joining : Phase

pub record System : Type 0 where
  pub g_running : Bool
  pub g_interval_sec : ℕ
  pub indicators : Indicators
  pub place : Place
  pub phase : Phase
  pub log : List Line
  pub slept : ℕ

-- `plugin_init` up to the creation of the thread, by the result of `pthread_create`, and from there.
unfoldable pub plugin_init_create : ℕ → System → System
plugin_init_create zero t = record t { g_running = true; place = entering; phase = initialising }
plugin_init_create (suc rc) t = record t { g_running = false; log = create_failed (suc rc) ∷ t.log }

unfoldable pub plugin_init_return : System → System
plugin_init_return t = record t { phase = loaded; log = initialized t.g_interval_sec ∷ t.log }

-- `plugin_deinit` up to the wait, and from there.
unfoldable pub plugin_deinit_ask : System → System
plugin_deinit_ask t = record t { g_running = false; phase = joining }

unfoldable pub plugin_deinit_return : System → System
plugin_deinit_return t = record t { place = absent; phase = unloaded; log = deinitialized ∷ t.log }

-- An assignment, and where the thread is after it.
unfoldable pub assign : Field → Indicators → Indicators → Indicators
assign cpu_pct now i = record i { g_cpu_pct = now.g_cpu_pct }
assign mem_used now i = record i { g_mem_used_mb = now.g_mem_used_mb }
assign mem_total now i = record i { g_mem_total_mb = now.g_mem_total_mb }
assign disk_read now i = record i { g_disk_read_kbps = now.g_disk_read_kbps }
assign disk_write now i = record i { g_disk_write_kbps = now.g_disk_write_kbps }
assign connections now i = record i { g_db_connections = now.g_db_connections }
assign queries_ps now i = record i { g_db_queries_ps = now.g_db_queries_ps }

unfoldable pub assigned : Field → Indicators → Prev → Place
assigned cpu_pct now p = publishing mem_used now p
assigned mem_used now p = publishing mem_total now p
assigned mem_total now p = publishing disk_read now p
assigned disk_read now p = publishing disk_write now p
assigned disk_write now p = publishing connections now p
assigned connections now p = publishing queries_ps now p
assigned queries_ps now p = logging now p

module _ (login : Login) where
  -- What the round is about to publish, with the rates of the disk, and the interval read for `qps`.
  unfoldable pub gather : ℕ → Samples → Prev → ℤ → ℤ → Indicators
  gather interval s p r_kbps w_kbps =
      let mem = mem_usage_get (pos 0) (pos 0) s.total_bytes s.page_size s.vm_stat in
      let db = db_metric_get login s.client in
      record {
        g_cpu_pct = (cpu_usage_measure s.first_loads s.later_loads).0;
        g_mem_used_mb = mem.used_mb;
        g_mem_total_mb = mem.total_mb;
        g_disk_read_kbps = r_kbps;
        g_disk_write_kbps = w_kbps;
        g_db_connections = db.out.connections;
        g_db_queries_ps = qps interval p.prev_questions db;
      }

  unfoldable pub carried : Samples → Prev → Prev
  carried s p =
      let db = db_metric_get login s.client in
      record {
        prev_disk = (disk_stat_get s.drives).1;
        prev_questions = if db.ok then db.out.questions else p.prev_questions;
      }

  -- What the thread has before the loop.
  unfoldable pub opened : Samples → Prev
  opened s =
      let m = db_metric_get login s.client in
      record {
        prev_disk = (disk_stat_get s.drives).1;
        prev_questions = if m.ok then m.out.questions else pos 0;
      }

  -- A step of the thread at a place. What the system and the server answer is chosen where the thread
  -- begins to ask.
  unfoldable pub work_at : Samples → System → Place → System
  work_at s t absent = t
  work_at s t entering = record t { place = opening; log = thread_started t.g_interval_sec ∷ t.log }
  work_at s t opening = record t { place = testing (opened s) }
  work_at s t (testing p) =
      if t.g_running then record t { place = sampling p } else record t { place = ending }
  work_at s t (sampling p) = record t {
    place = reading s p;
    slept = t.slept + (cpu_usage_measure s.first_loads s.later_loads).1;
  }
  work_at _ t (reading s p) =
      let cur_disk = (disk_stat_get s.drives).1 in
      record t {
        place = writing s p (kbps t.g_interval_sec p.prev_disk.bytes_read cur_disk.bytes_read);
      }
  work_at _ t (writing s p r_kbps) =
      let cur_disk = (disk_stat_get s.drives).1 in
      record t {
        place =
            asking s p r_kbps
              (kbps t.g_interval_sec p.prev_disk.bytes_written cur_disk.bytes_written);
      }
  work_at _ t (asking s p r_kbps w_kbps) = record t {
    place = publishing cpu_pct (gather t.g_interval_sec s p r_kbps w_kbps) (carried s p);
  }
  work_at s t (publishing f now p) = record t {
    place = assigned f now p;
    indicators = assign f now t.indicators;
  }
  work_at s t (logging now p) = record t { place = resting p; log = measured now ∷ t.log }
  work_at s t (resting p) = record t { place = napping 0 (remain_of t.g_interval_sec) p }
  work_at s t (napping i remain p) =
      if ltb i remain && t.g_running
      then record t { place = napping (i + 1) remain p; slept = t.slept + 1 }
      else record t { place = testing p }
  work_at s t ending = record t { place = finished; log = thread_stopped ∷ t.log }
  work_at s t finished = t

  unfoldable pub work : Samples → System → System
  work s t = work_at s t t.place

  -- The server initialises a plugin that is not loaded and deinitialises one that is; a session may set
  -- the interval at any time.
  pub data Step (store : IntVar → ℤ → ℕ) : System → System → Type 0 where
    create_step :
        (t : System) (rc : ℕ) → t.phase ≡ unloaded → Step store t (plugin_init_create rc t)
    return_step : (t : System) → t.phase ≡ initialising → Step store t (plugin_init_return t)
    ask_step : (t : System) → t.phase ≡ loaded → Step store t (plugin_deinit_ask t)
    join_step :
        (t : System)
        → t.phase ≡ joining
        → t.place ≡ finished
        → Step store t (plugin_deinit_return t)
    set_step :
        (t : System) (z : ℤ) → Step store t (record t { g_interval_sec = store interval_var z })
    work_step : (t : System) (s : Samples) → Step store t (work s t)

abbrev pub zeros : Indicators
zeros = record {
  g_cpu_pct = zero_percent;
  g_mem_used_mb = pos 0;
  g_mem_total_mb = pos 0;
  g_disk_read_kbps = pos 0;
  g_disk_write_kbps = pos 0;
  g_db_connections = pos 0;
  g_db_queries_ps = pos 0;
}

abbrev pub initial : System
initial = record {
  g_running = false;
  g_interval_sec = 5;
  indicators = zeros;
  place = absent;
  phase = unloaded;
  log = [];
  slept = 0;
}

pub data Reachable (login : Login) (store : IntVar → ℤ → ℕ) : System → Type 0 where
  at_start : Reachable login store initial
  by_step :
      (t u : System) → Reachable login store t → Step login store t u → Reachable login store u
