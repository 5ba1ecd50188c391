-- ===== src/Monitor/Concurrent/Drain.antt =====
-- How long `plugin_deinit` waits for the thread, and what the thread still does.
pub mod Wait
use devel_mysql_plugin.Common.{
  ℕ, zero, suc, ◌+◌, ◌-◌, ◌≤◌, ◌≡◌, refl, sym, ap, subst, ◌∙◌, arith, ℤ, ltb, Bool, true, false,
  ◌&&◌, List, [], ◌∷◌, length, none, some, Option, if◌then◌else◌,
}
use devel_mysql_plugin.Monitor.Cpu.{CpuLoad, cpu_ticks_get, cpu_usage_measure}
use devel_mysql_plugin.Monitor.Database.{Login}
use devel_mysql_plugin.Monitor.Loop.{Indicators, Samples, remain_of}
use devel_mysql_plugin.Monitor.Variables.{IntVar}
use devel_mysql_plugin.Monitor.Concurrent.{
  Line, thread_started, measured, thread_stopped, Prev, Field, cpu_pct, mem_used, mem_total,
  disk_read, disk_write, connections, queries_ps, Place, absent, entering, opening, ending,
  finished, testing, sampling, resting, reading, writing, asking, publishing, logging, napping,
  Phase, joining, System, assigned, work_at, work, Reachable,
}
use devel_mysql_plugin.Monitor.Concurrent.Places.{is_there, Fits, Placed, Reachable-Placed}
use devel_mysql_plugin.Monitor.Concurrent.Rounds.{measured_lines}

-- What happens while the server waits: a step of the thread, or a session sets the interval.
pub data Act : Type 0 where
  works : Samples → Act
  sets : ℕ → Act

unfoldable pub acts : Login → List Act → System → System
acts login [] t = t
acts login (works s ∷ rest) t = acts login rest (work login s t)
acts login (sets n ∷ rest) t = acts login rest (record t { g_interval_sec = n })

unfoldable pub thread_steps : List Act → ℕ
thread_steps [] = 0
thread_steps (works s ∷ rest) = 1 + thread_steps rest
thread_steps (sets n ∷ rest) = thread_steps rest

-- The steps up to the return once the flag is off.
unfoldable pub field_left : Field → ℕ
field_left cpu_pct = 12
field_left mem_used = 11
field_left mem_total = 10
field_left disk_read = 9
field_left disk_write = 8
field_left connections = 7
field_left queries_ps = 6

unfoldable pub left : Place → ℕ
left absent = 0
left finished = 0
left ending = 1
left (testing p) = 2
left opening = 3
left (napping i remain p) = 3
left entering = 4
left (resting p) = 4
left (logging now p) = 5
left (publishing f now p) = field_left f
left (asking s p r w) = 13
left (writing s p r) = 14
left (reading s p) = 15
left (sampling p) = 16

-- The lines of rounds that are still to come, and the seconds that may still be slept.
unfoldable pub lines_left : Place → ℕ
lines_left (sampling p) = 1
lines_left (reading s p) = 1
lines_left (writing s p r) = 1
lines_left (asking s p r w) = 1
lines_left (publishing f now p) = 1
lines_left (logging now p) = 1
lines_left _ = 0

unfoldable pub sleep_left : Place → ℕ
sleep_left (sampling p) = 1
sleep_left _ = 0

abbrev pub lines : System → ℕ
lines t = length (measured_lines t.log) + lines_left t.place

-- What a step does once the flag is off, from a place.
pub record Drains (t u : System) (l : Place) : Type 0 where
  pub off : u.g_running ≡ false
  pub there : is_there u.place ≡ true
  pub shorter : left u.place ≡ left l - 1
  pub same_lines : lines u ≡ length (measured_lines t.log) + lines_left l
  pub little_sleep : u.slept + sleep_left u.place ≤ t.slept + sleep_left l

sampled : (s : Samples) → (cpu_usage_measure s.first_loads s.later_loads).1 ≤ 1
unfolding cpu_usage_measure
sampled s = ground arith

assigned-left :
    (f : Field) (now : Indicators) (p : Prev)
    → (left (assigned f now p) ≡ field_left f - 1)
      × (lines_left (assigned f now p) ≡ 1)
      × (sleep_left (assigned f now p) ≡ 0)
      × (is_there (assigned f now p) ≡ true)
unfolding left field_left lines_left sleep_left assigned is_there
assigned-left cpu_pct now p = (refl, refl, refl, refl)
assigned-left mem_used now p = (refl, refl, refl, refl)
assigned-left mem_total now p = (refl, refl, refl, refl)
assigned-left disk_read now p = (refl, refl, refl, refl)
assigned-left disk_write now p = (refl, refl, refl, refl)
assigned-left connections now p = (refl, refl, refl, refl)
assigned-left queries_ps now p = (refl, refl, refl, refl)

-- A step that neither writes a line nor sleeps.
quietly :
    (t u : System) (l : Place)
    → u.g_running ≡ false
    → is_there u.place ≡ true
    → left u.place ≡ left l - 1
    → u.log ≡ t.log
    → lines_left u.place ≡ lines_left l
    → u.slept + sleep_left u.place ≤ t.slept + sleep_left l
    → Drains t u l
quietly t u l off there shorter log few sleep = record {
  off = off;
  there = there;
  shorter = shorter;
  same_lines = rw (log, few) refl;
  little_sleep = sleep;
}

otherwise :
    (c : Bool) (t u v : System) (l : Place)
    → c ≡ false
    → Drains t v l
    → Drains t (if c then u else v) l
otherwise true t u v l off d = ground (arith, off)
otherwise false t u v l off d = d

module _ (login : Login) where
  pub work-Drains :
      (s : Samples) (t : System) (l : Place)
      → t.place ≡ l
      → t.g_running ≡ false
      → is_there l ≡ true
      → Drains t (work_at login s t l) l
  unfolding work_at left field_left lines_left sleep_left measured_lines is_there
  work-Drains s t absent e off there = ground (arith, there)
  work-Drains s t finished e off there =
      quietly t t finished off (rw e refl) (rw e refl) refl (rw e refl) (rw e (omega arith))
  work-Drains s t entering e off there = record {
    off = off;
    there = refl;
    shorter = refl;
    same_lines = refl;
    little_sleep = omega arith;
  }
  work-Drains s t ending e off there = record {
    off = off;
    there = refl;
    shorter = refl;
    same_lines = refl;
    little_sleep = omega arith;
  }
  work-Drains s t (logging now p) e off there = record {
    off = off;
    there = refl;
    shorter = refl;
    same_lines = omega arith;
    little_sleep = omega arith;
  }
  work-Drains s t opening e off there = quietly t _ opening off refl refl refl refl (omega arith)
  work-Drains s t (testing p) e off there =
      otherwise t.g_running t (record t { place = sampling p }) (record t { place = ending })
        (testing p) off
        (quietly t (record t { place = ending }) (testing p) off refl refl refl refl (omega arith))
  work-Drains s t (sampling p) e off there =
      quietly t _ (sampling p) off refl refl refl refl (omega (arith, sampled s))
  work-Drains s t (resting p) e off there =
      quietly t _ (resting p) off refl refl refl refl (omega arith)
  work-Drains _ t (reading s p) e off there =
      quietly t _ (reading s p) off refl refl refl refl (omega arith)
  work-Drains _ t (writing s p r) e off there =
      quietly t _ (writing s p r) off refl refl refl refl (omega arith)
  work-Drains _ t (asking s p r w) e off there =
      quietly t _ (asking s p r w) off refl refl refl refl (omega arith)
  work-Drains s t (publishing f now p) e off there =
      let next = assigned-left f now p in
      quietly t _ (publishing f now p) off next.3 next.0 refl next.1 (omega (arith, next.2))
  work-Drains s t (napping i remain p) e off there =
      let over : (ltb i remain && t.g_running) ≡ false = ground (arith, off) in
      otherwise (ltb i remain && t.g_running) t
        (record t { place = napping (i + 1) remain p; slept = t.slept + 1 })
        (record t { place = testing p }) (napping i remain p) over
        (quietly t (record t { place = testing p }) (napping i remain p) off refl refl refl refl
          (omega arith))
