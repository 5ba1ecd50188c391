-- ===== src/Monitor/Variables/Defaults.antt =====
-- The login of the thread before and after the server sets the variables.
use devel_mysql_plugin.Common.{◌≡◌, refl, some}
use devel_mysql_plugin.Libc.Strings.{codes}
use devel_mysql_plugin.Monitor.Database.{Client, db_metric_get}
use devel_mysql_plugin.Monitor.Variables.{no_login, login_defaults}

-- As long as the variables point nowhere, `db_metric_get` connects as it does with their defaults, but
-- with a fixed password in place of the empty one, whatever the server answers.
unset_password :
    (client : Client)
    → db_metric_get no_login client
      ≡ db_metric_get (record login_defaults { g_mon_password = some (codes "p@ssw0rd!@") }) client
unfolding db_metric_get no_login login_defaults
unset_password client = refl
