-- ===== src/Monitor/Concurrent/Shown.antt =====
-- What SHOW STATUS reads while the thread assigns the indicators one by one.
use devel_mysql_plugin.Common.{
  ℕ, zero, suc, ◌≡◌, refl, ap, sym, subst, ◌∙◌, Bool, true, false, ◌&&◌, ltb, List, [], ◌∷◌, ℤ,
  if◌then◌else◌, ◌+◌,
}
use devel_mysql_plugin.Monitor.Database.{Login}
use devel_mysql_plugin.Monitor.Loop.{Indicators, Samples}
use devel_mysql_plugin.Monitor.Variables.{IntVar}
use devel_mysql_plugin.Monitor.Concurrent.{
  Line, thread_started, initialized, create_failed, measured, thread_stopped, deinitialized, Prev,
  Field, unloaded, cpu_pct, mem_used, mem_total, disk_read, disk_write, connections, queries_ps,
  Place, absent, entering, opening, ending, finished, testing, sampling, resting, reading, writing,
  asking, publishing, logging, napping, System, plugin_init_create, plugin_init_return,
  plugin_deinit_ask, plugin_deinit_return, assign, assigned, work_at, work, Step, create_step,
  return_step, ask_step, join_step, set_step, work_step, zeros, Reachable, at_start, by_step,
}
use devel_mysql_plugin.Monitor.Concurrent.Places.{Fits, Placed, Reachable-Placed}

-- The indicators of the latest line of a round, or zeros if there is none.
unfoldable pub latest : List Line → Indicators
latest [] = zeros
latest (measured now ∷ log) = now
latest (thread_started interval ∷ log) = latest log
latest (initialized interval ∷ log) = latest log
latest (create_failed rc ∷ log) = latest log
latest (thread_stopped ∷ log) = latest log
latest (deinitialized ∷ log) = latest log

-- The first indicators from one record, and those from a field on from another.
unfoldable pub mixed : Field → Indicators → Indicators → Indicators
mixed cpu_pct now before = before
mixed mem_used now before = record before { g_cpu_pct = now.g_cpu_pct }
mixed mem_total now before = record before {
  g_cpu_pct = now.g_cpu_pct;
  g_mem_used_mb = now.g_mem_used_mb;
}
mixed disk_read now before = record before {
  g_cpu_pct = now.g_cpu_pct;
  g_mem_used_mb = now.g_mem_used_mb;
  g_mem_total_mb = now.g_mem_total_mb;
}
mixed disk_write now before = record now {
  g_disk_write_kbps = before.g_disk_write_kbps;
  g_db_connections = before.g_db_connections;
  g_db_queries_ps = before.g_db_queries_ps;
}
mixed connections now before = record now {
  g_db_connections = before.g_db_connections;
  g_db_queries_ps = before.g_db_queries_ps;
}
mixed queries_ps now before = record now { g_db_queries_ps = before.g_db_queries_ps }

-- What there is to see at a place, after a line of indicators.
unfoldable pub visible : Place → Indicators → Indicators
visible (publishing f now p) before = mixed f now before
visible (logging now p) before = now
visible _ before = before

abbrev Agrees : System → Type 0
Agrees t = t.indicators ≡ visible t.place (latest t.log)

publishing-Agrees :
    (f : Field) (now : Indicators) (p : Prev) (t : System)
    → t.indicators ≡ mixed f now (latest t.log)
    → assign f now t.indicators ≡ visible (assigned f now p) (latest t.log)
unfolding assign assigned visible mixed
publishing-Agrees cpu_pct now p t v = ap (assign cpu_pct now) v
publishing-Agrees mem_used now p t v = ap (assign mem_used now) v
publishing-Agrees mem_total now p t v = ap (assign mem_total now) v
publishing-Agrees disk_read now p t v = ap (assign disk_read now) v
publishing-Agrees disk_write now p t v = ap (assign disk_write now) v
publishing-Agrees connections now p t v = ap (assign connections now) v
publishing-Agrees queries_ps now p t v = ap (assign queries_ps now) v

choice-Agrees : (c : Bool) (t u : System) → Agrees t → Agrees u → Agrees (if c then t else u)
choice-Agrees true t u v w = v
choice-Agrees false t u v w = w

module _ (login : Login) where
  work-Agrees :
      (s : Samples) (t : System) (l : Place)
      → t.indicators ≡ visible l (latest t.log)
      → t.place ≡ l
      → Agrees (work_at login s t l)
  unfolding work_at visible latest mixed
  work-Agrees s t absent v e = v ∙ ap (λ l. visible l (latest t.log)) (sym e)
  work-Agrees s t finished v e = v ∙ ap (λ l. visible l (latest t.log)) (sym e)
  work-Agrees s t entering v e = v
  work-Agrees s t opening v e = v
  work-Agrees s t ending v e = v
  work-Agrees s t (testing p) v e =
      choice-Agrees t.g_running (record t { place = sampling p }) (record t { place = ending }) v v
  work-Agrees s t (sampling p) v e = v
  work-Agrees s t (resting p) v e = v
  work-Agrees _ t (reading s p) v e = v
  work-Agrees _ t (writing s p r) v e = v
  work-Agrees _ t (asking s p r w) v e = v
  work-Agrees s t (publishing f now p) v e = publishing-Agrees f now p t v
  work-Agrees s t (logging now p) v e = v
  work-Agrees s t (napping i remain p) v e =
      choice-Agrees (ltb i remain && t.g_running)
        (record t { place = napping (i + 1) remain p; slept = t.slept + 1 })
        (record t { place = testing p }) v v

at_absent : (t : System) → t.place ≡ absent → Agrees t → t.indicators ≡ latest t.log
unfolding visible
at_absent t e v = v ∙ ap (λ l. visible l (latest t.log)) e

at_finished : (t : System) → t.place ≡ finished → Agrees t → t.indicators ≡ latest t.log
unfolding visible
at_finished t e v = v ∙ ap (λ l. visible l (latest t.log)) e

create-Agrees :
    (rc : ℕ) (t : System)
    → t.phase ≡ unloaded
    → Placed t
    → Agrees t
    → Agrees (plugin_init_create rc t)
unfolding plugin_init_create Fits visible latest
create-Agrees zero t e w v = at_absent t (subst (Fits t.g_running t.place) e w) v
create-Agrees (suc rc) t e w v = v

module _ {login : Login} {store : IntVar → ℤ → ℕ} where
  Step-Agrees : {t u : System} → Step login store t u → Placed t → Agrees t → Agrees u
  unfolding plugin_init_return plugin_deinit_ask plugin_deinit_return work visible latest
  Step-Agrees (create_step t rc e) w v = create-Agrees rc t e w v
  Step-Agrees (return_step t e) w v = v
  Step-Agrees (ask_step t e) w v = v
  Step-Agrees (join_step t e f) w v = at_finished t f v
  Step-Agrees (set_step t z) w v = v
  Step-Agrees (work_step t s) w v = work-Agrees login s t t.place v refl

  -- In every state that can be reached, by any order of what the server and the thread do, the
  -- indicators that SHOW STATUS reads are those of the latest line of a round in the log, or zeros
  -- if there is none yet, but for the time from the first assignment of a round to its line: then
  -- they are the new ones up to where the assignments have come, and those of the latest line from
  -- there on.
  pub indicators_shown :
      (t : System) → Reachable login store t → t.indicators ≡ visible t.place (latest t.log)
  unfolding visible latest
  indicators_shown _ at_start = refl
  indicators_shown _ (by_step t u r st) = Step-Agrees st (Reachable-Placed r) (indicators_shown t r)
