-- ===== src/Monitor/Variables.antt =====
-- The tables of Source/04_OS_logger/Mac/my_resource.cpp that the server reads: the system variables
-- that can be set, and the status variables that SHOW STATUS shows. Setting the interval and the rounds
-- of the thread follow each other in any order.
pub mod Ledger
pub mod Defaults
use devel_mysql_plugin.Common.{
  ℕ, ◌+◌, ◌*◌, ℤ, pos, pos_part, Bool, Option, none, some, List, [], ◌∷◌, ◌≤◌, if◌then◌else◌,
}
use devel_mysql_plugin.Libc.Strings.{codes}
use devel_mysql_plugin.Libc.Files.{same_name}
use devel_mysql_plugin.Monitor.Cpu.{Percent}
use devel_mysql_plugin.Monitor.Database.{Login}
use devel_mysql_plugin.Monitor.Loop.{Indicators, Monitor, Samples, round}

-- MYSQL_SYSVAR_INT, by its last four arguments.
pub record IntVar : Type 0 where
  pub default_value : ℕ
  pub min_value : ℕ
  pub max_value : ℕ
  pub block_size : ℕ

unfoldable pub interval_var : IntVar
interval_var = record { default_value = 5; min_value = 1; max_value = 3600; block_size = 0 }

-- MYSQL_SYSVAR_STR: PLUGIN_VAR_MEMALLOC makes the server point the variables to copies of the defaults.
unfoldable pub login_defaults : Login
login_defaults = record {
  g_mon_socket = some (codes "/tmp/mysql.sock");
  g_mon_user = some (codes "root");
  g_mon_password = some (codes "");
}

-- The variables before the server points them anywhere.
unfoldable pub no_login : Login
no_login = record { g_mon_socket = none; g_mon_user = none; g_mon_password = none }

-- A variable in the table of system variables: an integer, or a text with its default.
pub data SysVar : Type 0 where
  sysvar_int : List ℕ → IntVar → SysVar
  sysvar_str : List ℕ → Option (List ℕ) → SysVar

unfoldable pub my_resource_sys_vars : List SysVar
unfolding interval_var login_defaults
my_resource_sys_vars =
    sysvar_int (codes "interval") interval_var
    ∷ sysvar_str (codes "socket") login_defaults.g_mon_socket
    ∷ sysvar_str (codes "user") login_defaults.g_mon_user
    ∷ sysvar_str (codes "password") login_defaults.g_mon_password
    ∷ []

-- What a status variable shows.
pub data Shown : Type 0 where
  show_double : Percent → Shown
  show_longlong : ℤ → Shown

pub record ShowVar : Type 0 where
  pub name : List ℕ
  pub shown : Shown

unfoldable pub my_resource_status_vars : Indicators → List ShowVar
my_resource_status_vars i =
    record { name = codes "my_resource_cpu_pct"; shown = show_double i.g_cpu_pct }
    ∷ record { name = codes "my_resource_mem_used_mb"; shown = show_longlong i.g_mem_used_mb }
    ∷ record { name = codes "my_resource_mem_total_mb"; shown = show_longlong i.g_mem_total_mb }
    ∷ record { name = codes "my_resource_disk_read_kbps"; shown = show_longlong i.g_disk_read_kbps }
    ∷ record {
      name = codes "my_resource_disk_write_kbps";
      shown = show_longlong i.g_disk_write_kbps;
    }
    ∷ record { name = codes "my_resource_db_connections"; shown = show_longlong i.g_db_connections }
    ∷ record { name = codes "my_resource_db_queries_ps"; shown = show_longlong i.g_db_queries_ps }
    ∷ []

-- What the variable of a name in the table shows.
unfoldable pub find_shown : List ℕ → List ShowVar → Option Shown
find_shown name [] = none
find_shown name (v ∷ vars) =
    let rest = find_shown name vars in if same_name name v.name then some v.shown else rest

-- A number that is shown, and 0 for anything else or less.
abbrev pub shown_number : Option Shown → ℕ
shown_number none = 0
shown_number (some (show_double p)) = 0
shown_number (some (show_longlong z)) = pos_part z

unfoldable pub queries_shown : Indicators → ℕ
queries_shown i =
    shown_number (find_shown (codes "my_resource_db_queries_ps") (my_resource_status_vars i))

-- The thread's variables with the interval, which a session may set while the thread waits.
pub record Thread : Type 0 where
  pub monitor : Monitor
  pub g_interval_sec : ℕ

pub data Deed : Type 0 where
  sets : ℤ → Deed
  works : Samples → List Bool → Deed

-- What the server stores when a session sets a variable to a value.
module _ (login : Login) (store : IntVar → ℤ → ℕ) where
  unfoldable pub deed : Thread → Deed → Thread
  deed t (sets z) = record t { g_interval_sec = store interval_var z }
  deed t (works s running) = record t { monitor = round login t.g_interval_sec s running t.monitor }

  -- The queries that the rates shown after the rounds amount to, each for the seconds of its round.
  unfoldable pub reported : List Deed → Thread → ℕ
  reported [] t = 0
  reported (sets z ∷ ds) t = reported ds (deed t (sets z))
  reported (works s running ∷ ds) t =
      let t' = deed t (works s running) in
      queries_shown t'.monitor.indicators * t.g_interval_sec + reported ds t'

  -- The seconds of the intervals of the rounds, and the rounds.
  unfoldable pub seconds : List Deed → Thread → ℕ
  seconds [] t = 0
  seconds (sets z ∷ ds) t = seconds ds (deed t (sets z))
  seconds (works s running ∷ ds) t = t.g_interval_sec + seconds ds (deed t (works s running))

unfoldable pub rounds : List Deed → ℕ
rounds [] = 0
rounds (sets z ∷ ds) = rounds ds
rounds (works s running ∷ ds) = 1 + rounds ds
