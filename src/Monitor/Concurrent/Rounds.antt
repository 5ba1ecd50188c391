-- ===== src/Monitor/Concurrent/Rounds.antt =====
-- The steps of a round, taken together.
pub mod Change
pub mod Turns
mod Examples
use devel_mysql_plugin.Common.{
  ℕ, zero, suc, ◌+◌, ◌≡◌, refl, sym, ap, subst, ◌∙◌, arith, ltb, true, false, List, [], ◌∷◌,
}
use native.Mathlib.Nat.{zero-add, suc-add, add-zero}
use devel_mysql_plugin.Monitor.Cpu.{cpu_usage_measure}
use devel_mysql_plugin.Monitor.Database.{Login}
use devel_mysql_plugin.Monitor.Loop.{Indicators, Monitor, Samples, remain_of, measure, round, start}
use devel_mysql_plugin.Monitor.Loop.Period.{running_for, naps-running_for}
use devel_mysql_plugin.Monitor.Concurrent.{
  Line, thread_started, initialized, create_failed, measured, thread_stopped, deinitialized, Prev,
  entering, testing, napping, System, assign, assigned, gather, carried, opened, work_at, work,
}

-- The indicators of the lines of rounds.
unfoldable pub measured_lines : List Line → List Indicators
measured_lines [] = []
measured_lines (measured now ∷ log) = now ∷ measured_lines log
measured_lines (thread_started interval ∷ log) = measured_lines log
measured_lines (initialized interval ∷ log) = measured_lines log
measured_lines (create_failed rc ∷ log) = measured_lines log
measured_lines (thread_stopped ∷ log) = measured_lines log
measured_lines (deinitialized ∷ log) = measured_lines log

-- What the rounds alone see of the system, and of the variables of the thread.
unfoldable pub monitor_of : System → Prev → Monitor
monitor_of t p = record {
  prev_disk = p.prev_disk;
  prev_questions = p.prev_questions;
  indicators = t.indicators;
  log = measured_lines t.log;
  slept = t.slept;
}

module _ (login : Login) where
  unfoldable pub works : ℕ → Samples → System → System
  works zero s t = t
  works (suc n) s t = works n s (work login s t)

  -- The state after the body of the loop, before the waiting loop.
  abbrev pub waiting : Samples → System → Prev → System
  waiting s t p =
      let now = measure login t.g_interval_sec s (monitor_of t p) in
      record t {
        indicators = now;
        place = napping 0 (remain_of t.g_interval_sec) (carried login s p);
        log = measured now ∷ t.log;
        slept = t.slept + (cpu_usage_measure s.first_loads s.later_loads).1;
      }

  pub body :
      (s : Samples) (t : System) (p : Prev)
      → t.g_running ≡ true
      → works 14 s (record t { place = testing p }) ≡ waiting s t p
  unfolding works work work_at assign assigned measure gather monitor_of
  body s t p on = rw on refl

  works_add : (m n : ℕ) (s : Samples) (t : System) → works (m + n) s t ≡ works n s (works m s t)
  unfolding works
  works_add zero n s t = rw zero-add refl
  works_add (suc m) n s t = rw suc-add (works_add m n s (work login s t))

  nap_on :
      (s : Samples) (i remain : ℕ) (t : System) (p : Prev)
      → ltb i remain ≡ true
      → t.g_running ≡ true
      → work login s (record t { place = napping i remain p })
        ≡ record t { place = napping (i + 1) remain p; slept = t.slept + 1 }
  unfolding work work_at
  nap_on s i remain t p below on = rw (below, on) refl

  nap_over :
      (s : Samples) (i remain : ℕ) (t : System) (p : Prev)
      → ltb i remain ≡ false
      → work login s (record t { place = napping i remain p }) ≡ record t { place = testing p }
  unfolding work work_at
  nap_over s i remain t p over = rw over refl

  pub waits :
      (s : Samples) (k i remain : ℕ) (t : System) (p : Prev)
      → i + k ≡ remain
      → t.g_running ≡ true
      → works (suc k) s (record t { place = napping i remain p })
        ≡ record t { place = testing p; slept = t.slept + k }
  unfolding works
  waits s zero i remain t p e on =
      let over : ltb i remain ≡ false = ground (arith, e) in
      rw add-zero (nap_over s i remain t p over)
  waits s (suc k) i remain t p e on =
      let below : ltb i remain ≡ true = ground (arith, e) in
      let sooner : i + 1 + k ≡ remain = omega (arith, e) in
      let later : t.slept + 1 + k ≡ t.slept + suc k = omega arith in
      ap (works (suc k) s) (nap_on s i remain t p below on)
      ∙ waits s k (i + 1) remain (record t { slept = t.slept + 1 }) p sooner on
      ∙ ap (λ n. record t { place = testing p; slept = n }) later

  -- The steps of a round of a thread that nothing disturbs.
  unfoldable pub steps_of : ℕ → ℕ
  steps_of interval = 14 + suc (remain_of interval)

  abbrev pub after : Samples → System → Prev → System
  after s t p = record (waiting s t p) {
    place = testing (carried login s p);
    slept = (waiting s t p).slept + remain_of t.g_interval_sec;
  }

  pub whole_round :
      (s : Samples) (t : System) (p : Prev)
      → t.g_running ≡ true
      → works (steps_of t.g_interval_sec) s (record t { place = testing p }) ≡ after s t p
  unfolding steps_of
  whole_round s t p on =
      let remain = remain_of t.g_interval_sec in
      works_add 14 (suc remain) s (record t { place = testing p })
      ∙ ap (works (suc remain) s) (body s t p on)
      ∙ waits s remain 0 remain (waiting s t p) (carried login s p) (omega arith) on

  pub at_test : (t : System) (p : Prev) → t.place ≡ testing p → t ≡ record t { place = testing p }
  at_test t p e = ap (λ l. record t { place = l }) e

  pub after_round :
      (s : Samples) (t : System) (p : Prev)
      → monitor_of (after s t p) (carried login s p)
        ≡ round login t.g_interval_sec s (running_for (remain_of t.g_interval_sec)) (monitor_of t p)
  unfolding monitor_of measured_lines round carried measure
  after_round s t p = rw (naps-running_for (remain_of t.g_interval_sec)) refl
