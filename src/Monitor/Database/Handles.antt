-- ===== src/Monitor/Database/Handles.antt =====
-- Nothing that is opened for the query stays open.
use devel_mysql_plugin.Common.{
  ◌+◌, ◌≡◌, refl, arith, ℤ, pos, Bool, true, false, Option, none, some, if◌then◌else◌,
}
use devel_mysql_plugin.Libc.Strings.{codes}
use devel_mysql_plugin.Monitor.Database.{
  DbMetric, Login, Reply, query_failed, no_result, no_row, null_value, value, Query,
  threads_connected, questions_asked, Client, Tally, nothing_yet, query_ll, converse, db_metric_get,
  or_text,
}

-- As many closed as opened.
pub record Balanced (t : Tally) : Type 0 where
  pub handles : t.handles_opened ≡ t.handles_closed
  pub results : t.results_stored ≡ t.results_freed

query_ll_results :
    (r : Reply) (val : ℤ) (t : Tally)
    → t.results_stored ≡ t.results_freed
    → ((query_ll r val t).1.results_stored ≡ (query_ll r val t).1.results_freed)
      × ((query_ll r val t).1.handles_opened ≡ t.handles_opened)
      × ((query_ll r val t).1.handles_closed ≡ t.handles_closed)
unfolding query_ll
query_ll_results query_failed val t h = (h, refl, refl)
query_ll_results no_result val t h = (h, refl, refl)
query_ll_results no_row val t h = (omega arith, refl, refl)
query_ll_results null_value val t h = (omega arith, refl, refl)
query_ll_results (value text) val t h = (omega arith, refl, refl)

converse-Balanced :
    (answer : Option (Query → Reply)) (t : Tally)
    → t.handles_opened ≡ t.handles_closed + 1
    → t.results_stored ≡ t.results_freed
    → Balanced (converse answer t).tally
unfolding converse
converse-Balanced none t h r = record { handles = omega arith; results = r }
converse-Balanced (some reply) t h r =
    let first = query_ll_results (reply threads_connected) (pos 0) t r in
    let t1 = (query_ll (reply threads_connected) (pos 0) t).1 in
    let then_ = query_ll_results (reply questions_asked) (pos 0) t1 first.0 in
    record { handles = omega (arith, first, then_); results = then_.0 }

abbrev pub nothing : DbMetric
nothing = record { connections = pos 0; questions = pos 0 }

handled :
    (handle_ok : Bool) (answer : Option (Query → Reply))
    → Balanced
        (if handle_ok
          then converse answer (record nothing_yet { handles_opened = 1 })
          else record { ok = false; out = nothing; tally = nothing_yet }).tally
handled true answer = converse-Balanced answer (record nothing_yet { handles_opened = 1 }) refl refl
handled false answer = record { handles = refl; results = refl }

-- Whatever the client library answers, `db_metric_get` closes each handle that it opens and frees
-- each result that it stores.
db_metric_get-Balanced :
    (login : Login) (client : Client) → Balanced (db_metric_get login client).tally
unfolding db_metric_get
db_metric_get-Balanced login client = handled client.handle_ok (
    client.connect (or_text login.g_mon_socket (codes "/tmp/mysql.sock"))
      (or_text login.g_mon_user (codes "root")) (or_text login.g_mon_password (codes "p@ssw0rd!@")))
