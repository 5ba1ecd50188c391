-- ===== src/Monitor/Concurrent/Interval.antt =====
-- The bounds of the interval, and of what the thread computes of it.
use devel_mysql_plugin.Common.{
  ℕ, zero, suc, ◌+◌, ◌≤◌, ◌≡◌, refl, sym, subst, arith, ℤ, Bool, true, false, ◌&&◌, ltb, ltb→lt,
  if◌then◌else◌,
}
use devel_mysql_plugin.Monitor.Database.{Login}
use devel_mysql_plugin.Monitor.Loop.{Indicators, Samples, remain_of}
use devel_mysql_plugin.Monitor.Variables.{IntVar, interval_var}
use devel_mysql_plugin.Monitor.Variables.Ledger.{KeepsBounds}
use devel_mysql_plugin.Monitor.Concurrent.{
  Prev, Field, cpu_pct, mem_used, mem_total, disk_read, disk_write, connections, queries_ps, Place,
  absent, entering, opening, ending, finished, testing, sampling, resting, reading, writing, asking,
  publishing, logging, napping, System, plugin_init_create, plugin_init_return, plugin_deinit_ask,
  plugin_deinit_return, assigned, work_at, work, Step, create_step, return_step, ask_step,
  join_step, set_step, work_step, Reachable, at_start, by_step,
}

-- The waiting loop is within its bounds.
unfoldable Waits : Place → Type 0
Waits (napping i remain p) = (i ≤ remain) × (1 ≤ remain) × (remain ≤ 3599)
Waits _ = Unit

abbrev Bounded : System → Type 0
Bounded t = (1 ≤ t.g_interval_sec) × (t.g_interval_sec ≤ 3600) × Waits t.place

remain_bounds : (n : ℕ) → n ≤ 3600 → (1 ≤ remain_of n) × (remain_of n ≤ 3599)
unfolding remain_of
remain_bounds n h = ground arith

assigned-Waits : (f : Field) (now : Indicators) (p : Prev) → Waits (assigned f now p)
unfolding assigned Waits
assigned-Waits cpu_pct now p = tt
assigned-Waits mem_used now p = tt
assigned-Waits mem_total now p = tt
assigned-Waits disk_read now p = tt
assigned-Waits disk_write now p = tt
assigned-Waits connections now p = tt
assigned-Waits queries_ps now p = tt

choice-Bounded :
    (c : Bool) (t u : System)
    → (c ≡ true → Bounded t)
    → (c ≡ false → Bounded u)
    → Bounded (if c then t else u)
choice-Bounded true t u v w = v refl
choice-Bounded false t u v w = w refl

module _ (login : Login) where
  work-Bounded :
      (s : Samples) (t : System) (l : Place)
      → t.place ≡ l
      → 1 ≤ t.g_interval_sec
      → t.g_interval_sec ≤ 3600
      → Waits l
      → Bounded (work_at login s t l)
  unfolding work_at Waits
  work-Bounded s t absent e low high w = (low, high, subst Waits (sym e) tt)
  work-Bounded s t finished e low high w = (low, high, subst Waits (sym e) tt)
  work-Bounded s t entering e low high w = (low, high, tt)
  work-Bounded s t opening e low high w = (low, high, tt)
  work-Bounded s t ending e low high w = (low, high, tt)
  work-Bounded s t (testing p) e low high w =
      choice-Bounded t.g_running (record t { place = sampling p }) (record t { place = ending })
        (λ on. (low, high, tt)) (λ off. (low, high, tt))
  work-Bounded s t (sampling p) e low high w = (low, high, tt)
  work-Bounded _ t (reading s p) e low high w = (low, high, tt)
  work-Bounded _ t (writing s p r) e low high w = (low, high, tt)
  work-Bounded _ t (asking s p r x) e low high w = (low, high, tt)
  work-Bounded s t (publishing f now p) e low high w = (low, high, assigned-Waits f now p)
  work-Bounded s t (logging now p) e low high w = (low, high, tt)
  work-Bounded s t (resting p) e low high w =
      let b = remain_bounds t.g_interval_sec high in (low, high, (omega arith, b.0, b.1))
  work-Bounded s t (napping i remain p) e low high w =
      choice-Bounded (ltb i remain && t.g_running)
        (record t { place = napping (i + 1) remain p; slept = t.slept + 1 })
        (record t { place = testing p })
        (λ on.
          let below : ltb i remain ≡ true = ground (arith, on) in
          (low, high, (omega (arith, ltb→lt i remain below), w.1, w.2)))
        (λ off. (low, high, tt))

create-Bounded : (rc : ℕ) (t : System) → Bounded t → Bounded (plugin_init_create rc t)
unfolding plugin_init_create Waits
create-Bounded zero t v = (v.0, v.1, tt)
create-Bounded (suc rc) t v = v

module _ {login : Login} (store : IntVar → ℤ → ℕ) (keeps : KeepsBounds store) where
  Step-Bounded : {t u : System} → Step login store t u → Bounded t → Bounded u
  unfolding plugin_init_return plugin_deinit_ask plugin_deinit_return work Waits interval_var
  Step-Bounded (create_step t rc e) v = create-Bounded rc t v
  Step-Bounded (return_step t e) v = v
  Step-Bounded (ask_step t e) v = v
  Step-Bounded (join_step t e f) v = (v.0, v.1, tt)
  Step-Bounded (set_step t z) v = let b = keeps interval_var (omega arith) z in (b.0, b.1, v.2)
  Step-Bounded (work_step t s) v = work-Bounded login s t t.place refl v.0 v.1 v.2

  -- As long as the server stores the interval within the bounds of its variable: in every state that
  -- can be reached the interval, by which the thread divides, is from 1 to 3600, and a wait is for 1
  -- to 3599 seconds, of which no more than all are over, also while the interval is set in between.
  Reachable-Bounded :
      (t : System)
      → Reachable login store t
      → (1 ≤ t.g_interval_sec) × (t.g_interval_sec ≤ 3600) × Waits t.place
  unfolding Waits
  Reachable-Bounded _ at_start = (omega arith, omega arith, tt)
  Reachable-Bounded _ (by_step t u r st) = Step-Bounded st (Reachable-Bounded t r)
