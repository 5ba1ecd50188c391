-- ===== src/Monitor/Plugin.antt =====
-- `plugin_init` and `plugin_deinit`, and the server and the thread as one system. What the thread
-- measures is left to Loop; here are the places where it reads `g_running` and sleeps.
pub mod Stop
use devel_mysql_plugin.Common.{ℕ, zero, suc, ◌+◌, ◌≡◌, Bool, true, false, ◌&&◌, ltb, if◌then◌else◌}
use devel_mysql_plugin.Monitor.Loop.{remain_of}

-- Where the thread is: there is none; before the loop; at the test of the loop; waiting, with `i` and
-- `remain`; or it has returned.
pub data Worker : Type 0 where
  absent starting testing finished : Worker
  napping : ℕ → ℕ → Worker

-- Where the server is: the plugin is not loaded; it is; or `plugin_deinit` waits to join.
pub data Phase : Type 0 where
  unloaded loaded joining : Phase

pub record Daemon : Type 0 where
  pub g_running : Bool
  pub worker : Worker
  pub phase : Phase
  pub rounds : ℕ
  pub naps_slept : ℕ

-- By the result of `pthread_create`, 0 for success.
unfoldable pub plugin_init : ℕ → Daemon → ℕ × Daemon
plugin_init zero t = (0, record t { g_running = true; worker = starting; phase = loaded })
plugin_init (suc rc) t = (1, record t { g_running = false })

-- `plugin_deinit` up to the wait, and after it.
unfoldable pub plugin_deinit : Daemon → Daemon
plugin_deinit t = record t { g_running = false; phase = joining }

unfoldable pub joined : Daemon → Daemon
joined t = record t { worker = absent; phase = unloaded }

-- A step of the thread. The interval may be set between any two steps.
unfoldable pub test_step : ℕ → Daemon → Daemon
test_step interval t =
    if t.g_running
    then record t { worker = napping 0 (remain_of interval); rounds = t.rounds + 1 }
    else record t { worker = finished }

unfoldable pub nap_step : ℕ → ℕ → Daemon → Daemon
nap_step i remain t =
    if ltb i remain && t.g_running
    then record t { worker = napping (i + 1) remain; naps_slept = t.naps_slept + 1 }
    else record t { worker = testing }

abbrev pub work_at : ℕ → Daemon → Worker → Daemon
work_at interval t absent = t
work_at interval t starting = record t { worker = testing }
work_at interval t testing = test_step interval t
work_at interval t (napping i remain) = nap_step i remain t
work_at interval t finished = t

unfoldable pub work : ℕ → Daemon → Daemon
work interval t = work_at interval t t.worker

-- The server initialises a plugin that is not loaded, and deinitialises one that is.
pub data Step : Daemon → Daemon → Type 0 where
  init_step : (t : Daemon) (rc : ℕ) → t.phase ≡ unloaded → Step t (plugin_init rc t).1
  deinit_step : (t : Daemon) → t.phase ≡ loaded → Step t (plugin_deinit t)
  join_step : (t : Daemon) → t.phase ≡ joining → t.worker ≡ finished → Step t (joined t)
  work_step : (t : Daemon) (interval : ℕ) → Step t (work interval t)

abbrev pub initial : Daemon
initial = record {
  g_running = false;
  worker = absent;
  phase = unloaded;
  rounds = 0;
  naps_slept = 0;
}

pub data Reachable : Daemon → Type 0 where
  at_start : Reachable initial
  by_step : (t u : Daemon) → Reachable t → Step t u → Reachable u
