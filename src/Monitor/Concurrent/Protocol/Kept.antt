-- ===== src/Monitor/Concurrent/Protocol/Kept.antt =====
-- Every step keeps the lines in order.
use devel_mysql_plugin.Common.{
  ℕ, zero, suc, ◌+◌, ◌≡◌, refl, sym, ap, subst, ◌∙◌, ℤ, Bool, true, false, ◌&&◌, ltb, some,
  if◌then◌else◌,
}
use devel_mysql_plugin.Monitor.Database.{Login}
use devel_mysql_plugin.Monitor.Loop.{Indicators, Samples}
use devel_mysql_plugin.Monitor.Variables.{IntVar}
use devel_mysql_plugin.Monitor.Concurrent.{
  create_failed, deinitialized, Prev, Field, cpu_pct, mem_used, mem_total, disk_read, disk_write,
  connections, queries_ps, Place, absent, entering, opening, ending, finished, testing, sampling,
  resting, reading, writing, asking, publishing, logging, napping, Phase, unloaded, initialising,
  loaded, joining, System, plugin_init_create, plugin_init_return, plugin_deinit_ask,
  plugin_deinit_return, assigned, work_at, work, Step, create_step, return_step, ask_step,
  join_step, set_step, work_step, Reachable, at_start, by_step,
}
use devel_mysql_plugin.Monitor.Concurrent.Places.{Fits, Placed, Reachable-Placed}
use devel_mysql_plugin.Monitor.Concurrent.Protocol.{
  out, halted, told, told_all, stage_of, Orderly, tells, is_inside, goes_on, enter-told,
  measure-told, end-told, return-told, asked_stage,
}

assigned_inside : (f : Field) (now : Indicators) (p : Prev) → is_inside (assigned f now p) ≡ true
unfolding assigned is_inside
assigned_inside cpu_pct now p = refl
assigned_inside mem_used now p = refl
assigned_inside mem_total now p = refl
assigned_inside disk_read now p = refl
assigned_inside disk_write now p = refl
assigned_inside connections now p = refl
assigned_inside queries_ps now p = refl

choice-Orderly : (c : Bool) (t u : System) → Orderly t → Orderly u → Orderly (if c then t else u)
choice-Orderly true t u v w = v
choice-Orderly false t u v w = w

module _ (login : Login) where
  work-Orderly :
      (s : Samples) (t : System) (l : Place)
      → t.place ≡ l
      → Fits t.g_running l t.phase
      → told_all t.log ≡ some (stage_of t.phase l)
      → Orderly (work_at login s t l)
  unfolding work_at is_inside
  work-Orderly s t absent e w v = v ∙ ap (λ l. some (stage_of t.phase l)) (sym e)
  work-Orderly s t finished e w v = v ∙ ap (λ l. some (stage_of t.phase l)) (sym e)
  work-Orderly s t entering e w v =
      tells _ t.log _ _ v (enter-told t.g_running t.phase t.g_interval_sec w)
  work-Orderly s t ending e w v = tells _ t.log _ _ v (end-told t.g_running t.phase w)
  work-Orderly s t (logging now p) e w v =
      tells _ t.log _ _ v (measure-told t.g_running t.phase now p w)
  work-Orderly s t opening e w v = goes_on opening _ t refl refl v
  work-Orderly s t (testing p) e w v =
      choice-Orderly t.g_running (record t { place = sampling p }) (record t { place = ending })
        (goes_on (testing p) (sampling p) t refl refl v) (goes_on (testing p) ending t refl refl v)
  work-Orderly s t (sampling p) e w v = goes_on (sampling p) _ t refl refl v
  work-Orderly s t (resting p) e w v = goes_on (resting p) _ t refl refl v
  work-Orderly _ t (reading s p) e w v = goes_on (reading s p) _ t refl refl v
  work-Orderly _ t (writing s p r) e w v = goes_on (writing s p r) _ t refl refl v
  work-Orderly _ t (asking s p r x) e w v = goes_on (asking s p r x) _ t refl refl v
  work-Orderly s t (publishing f now p) e w v =
      goes_on (publishing f now p) _ t refl (assigned_inside f now p) v
  work-Orderly s t (napping i remain p) e w v =
      choice-Orderly (ltb i remain && t.g_running)
        (record t { place = napping (i + 1) remain p; slept = t.slept + 1 })
        (record t { place = testing p })
        (goes_on (napping i remain p) (napping (i + 1) remain p) t refl refl v)
        (goes_on (napping i remain p) (testing p) t refl refl v)

-- The stage of a state whose phase is known.
in_phase :
    (t : System) (p : Phase) → t.phase ≡ p → Orderly t → told_all t.log ≡ some (stage_of p t.place)
in_phase t p e v = v ∙ ap (λ x. some (stage_of x t.place)) e

create-Orderly :
    (rc : ℕ) (t : System) → t.phase ≡ unloaded → Orderly t → Orderly (plugin_init_create rc t)
unfolding plugin_init_create stage_of told
create-Orderly zero t e v = in_phase t unloaded e v
create-Orderly (suc rc) t e v =
    tells (create_failed (suc rc)) t.log out out (in_phase t unloaded e v) refl
    ∙ ap (λ x. some (stage_of x t.place)) (sym e)

module _ {login : Login} {store : IntVar → ℤ → ℕ} where
  Step-Orderly : {t u : System} → Step login store t u → Placed t → Orderly t → Orderly u
  unfolding plugin_init_return plugin_deinit_ask plugin_deinit_return work Fits told stage_of
  Step-Orderly (create_step t rc e) w v = create-Orderly rc t e v
  Step-Orderly (return_step t e) w v =
      let loops = (subst (Fits t.g_running t.place) e w).0 in
      tells _ t.log _ _ (in_phase t initialising e v) (return-told t.place t.g_interval_sec loops)
  Step-Orderly (ask_step t e) w v =
      let loops = (subst (Fits t.g_running t.place) e w).0 in
      in_phase t loaded e v ∙ ap some (asked_stage t.place loops)
  Step-Orderly (join_step t e f) w v =
      tells deinitialized t.log halted out
        (in_phase t joining e v ∙ ap (λ l. some (stage_of joining l)) f) refl
  Step-Orderly (set_step t z) w v = v
  Step-Orderly (work_step t s) w v = work-Orderly login s t t.place refl w v

  -- In every state that can be reached, by any order of what the server and the thread do, the lines of
  -- the log are in order, and tell where the server and the thread are. Each life of the plugin is
  -- told by a line for a thread that cannot be created, or by the two lines that the thread has
  -- started and the plugin is initialised, in either order, the lines of rounds after the former,
  -- the line that the thread has stopped after both, and the line that the plugin is deinitialised
  -- right after that, before anything of the next life.
  pub log_in_order :
      (t : System) → Reachable login store t → told_all t.log ≡ some (stage_of t.phase t.place)
  unfolding told_all stage_of
  log_in_order _ at_start = refl
  log_in_order _ (by_step t u r st) = Step-Orderly st (Reachable-Placed r) (log_in_order t r)
