-- ===== src/Monitor/Concurrent/Rounds/Change.antt =====
-- A round before which the interval is set.
use devel_mysql_plugin.Common.{ℕ, suc, ◌+◌, ◌≤◌, ◌≡◌, sym, ap, subst, ◌∙◌, arith, true, some, List}
use devel_mysql_plugin.Monitor.Cpu.{CpuLoad, cpu_usage_measure}
use devel_mysql_plugin.Monitor.Disk.{disk_stat_get}
use devel_mysql_plugin.Monitor.Database.{Login, db_metric_get}
use devel_mysql_plugin.Monitor.Loop.{Samples, kbps, qps, remain_of, measure}
use devel_mysql_plugin.Monitor.Loop.Period.{sampled}
use devel_mysql_plugin.Monitor.Concurrent.{Prev, testing, System, carried}
use devel_mysql_plugin.Monitor.Concurrent.Rounds.{
  works, monitor_of, waiting, after, body, waits, at_test,
}

whole_wait : (interval : ℕ) → 2 ≤ interval → remain_of interval + 1 ≡ interval
unfolding remain_of
whole_wait interval h = ground arith

-- Where the interval is set from at least two seconds to another when the wait of a round is over, the
-- next round takes the rates of the disk for the new interval, and so the queries if it gets an
-- answer, although its counters are read the seconds of the old interval after those of the last
-- round.
pub interval_change :
    (login : Login) (s s' : Samples) (loads : List CpuLoad) (t : System) (p : Prev) (interval : ℕ)
    → t.place ≡ testing p
    → t.g_running ≡ true
    → 2 ≤ t.g_interval_sec
    → s'.first_loads ≡ some loads
    → let v = works login 14 s t in
      let u = works login (suc (remain_of t.g_interval_sec)) s v in
      let w = works login 14 s' (record u { g_interval_sec = interval }) in
      let old = (disk_stat_get s.drives).1 in
      let new = (disk_stat_get s'.drives).1 in
      (w.slept ≡ v.slept + t.g_interval_sec)
      × (w.indicators.g_disk_read_kbps ≡ kbps interval old.bytes_read new.bytes_read)
      × (w.indicators.g_disk_write_kbps ≡ kbps interval old.bytes_written new.bytes_written)
      × (w.indicators.g_db_queries_ps
          ≡ qps interval (carried login s p).prev_questions (db_metric_get login s'.client))
unfolding measure monitor_of carried
interval_change login s s' loads t p interval e on long counted =
    let remain = remain_of t.g_interval_sec in
    let q = carried login s p in
    let v_eq : works login 14 s t ≡ waiting login s t p =
      ap (works login 14 s) (at_test login t p e) ∙ body login s t p on in
    let u_eq : works login (suc remain) s (works login 14 s t) ≡ after login s t p =
      ap (works login (suc remain) s) v_eq
      ∙ waits login s remain 0 remain (waiting login s t p) q (omega arith) on in
    let w_eq =
      ap (λ x. works login 14 s' (record x { g_interval_sec = interval })) u_eq
      ∙ body login s' (record (after login s t p) { g_interval_sec = interval }) q on in
    let one =
      subst (λ o. (cpu_usage_measure o s'.later_loads).1 ≡ 1) (sym counted)
        (sampled loads s'.later_loads) in
    (
      ap (λ x. x.slept) w_eq
          ∙ omega (arith, one, whole_wait t.g_interval_sec long)
          ∙ ap (λ x. x.slept + t.g_interval_sec) (sym v_eq),
      ap (λ x. x.indicators.g_disk_read_kbps) w_eq,
      ap (λ x. x.indicators.g_disk_write_kbps) w_eq,
      ap (λ x. x.indicators.g_db_queries_ps) w_eq,
    )
