-- ===== src/Logger/System.antt =====
-- The state that the server and the thread share, and their steps.
use devel_mysql_plugin.Common.{
  ℕ, ◌+◌, ◌≡◌, Bool, true, false, not, ◌&&◌, Option, none, some, List, [], ◌∷◌, ltb, if◌then◌else◌,
}
use devel_mysql_plugin.Logger.Ram.{SysInfo, Line, sample}

-- Where the thread is: there is none; at the test of the outer loop; at the test of the waiting loop
-- with its `i`; or it has returned.
pub data Worker : Type 0 where
  absent testing finished : Worker
  waiting : ℕ → Worker

-- Where the server is: the plugin is not loaded; it is; or `os_logger_deinit` waits to join.
pub data Plugin : Type 0 where
  unloaded loaded joining : Plugin

pub record System : Type 0 where
  pub stop_logger : Bool
  pub thread_running : Bool
  pub worker : Worker
  pub plugin : Plugin
  pub log : List Line
  pub slept : ℕ

-- `os_logger_init`, by whether `pthread_create` succeeds: the result, and the state. The thread does
-- not read `thread_running`, so that it makes no difference that it may run before that is set.
unfoldable pub os_logger_init : Bool → System → ℕ × System
os_logger_init true s =
    (0, record s { stop_logger = false; thread_running = true; worker = testing; plugin = loaded })
os_logger_init false s = (1, record s { stop_logger = false; thread_running = false })

-- `os_logger_deinit` up to the wait, or to its end where there is no thread.
unfoldable pub os_logger_deinit : System → System
os_logger_deinit s =
    if s.thread_running
    then record s { stop_logger = true; plugin = joining }
    else record s { stop_logger = true; plugin = unloaded }

-- The end of `os_logger_deinit`, after `pthread_join`.
unfoldable pub joined : System → System
joined s = record s { thread_running = false; worker = absent; plugin = unloaded }

abbrev pub print : Option Line → List Line → List Line
print none log = log
print (some l) log = l ∷ log

-- A step of `os_logger_worker`: the test of the outer loop with what follows it, or the test of the
-- waiting loop with the second that is slept.
unfoldable pub test_step : Option SysInfo → System → System
test_step info s =
    if s.stop_logger
    then record s { worker = finished }
    else record s { worker = waiting 0; log = print (sample info) s.log }

unfoldable pub wait_step : ℕ → System → System
wait_step i s =
    if ltb i 5 && not s.stop_logger
    then record s { worker = waiting (i + 1); slept = s.slept + 1 }
    else record s { worker = testing }

abbrev pub work_at : Option SysInfo → System → Worker → System
work_at info s absent = s
work_at info s testing = test_step info s
work_at info s (waiting i) = wait_step i s
work_at info s finished = s

unfoldable pub work : Option SysInfo → System → System
work info s = work_at info s s.worker

-- The steps. The server initialises a plugin that is not loaded, and deinitialises one that is.
pub data Step : System → System → Type 0 where
  init_step :
      (s : System) (created : Bool) → s.plugin ≡ unloaded → Step s (os_logger_init created s).1
  deinit_step : (s : System) → s.plugin ≡ loaded → Step s (os_logger_deinit s)
  join_step : (s : System) → s.plugin ≡ joining → s.worker ≡ finished → Step s (joined s)
  work_step : (s : System) (info : Option SysInfo) → Step s (work info s)

-- The state in which the shared object is loaded.
abbrev pub initial : System
initial = record {
  stop_logger = false;
  thread_running = false;
  worker = absent;
  plugin = unloaded;
  log = [];
  slept = 0;
}

pub data Reachable : System → Type 0 where
  at_start : Reachable initial
  by_step : (s t : System) → Reachable s → Step s t → Reachable t
