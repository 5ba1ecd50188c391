-- ===== src/Monitor/Variables/Ledger.antt =====
-- What the rates amount to over a run of the thread.
use devel_mysql_plugin.Common.{
  ℕ, ◌+◌, ◌-◌, ◌*◌, ◌≤◌, ◌≡◌, ◌∙◌, refl, arith, inl, inr, ℤ, pos, pos_part, Bool, true, false, List,
  [], ◌∷◌,
}
use devel_mysql_plugin.Libc.Files.{same_name}
use devel_mysql_plugin.Monitor.Database.{Login, db_metric_get}
use devel_mysql_plugin.Monitor.Loop.{Indicators, Samples, round, measure, qps}
use devel_mysql_plugin.Monitor.Loop.Rates.{IsRate, qps-IsRate}
use devel_mysql_plugin.Monitor.Variables.{
  IntVar, interval_var, my_resource_status_vars, find_shown, queries_shown, Thread, Deed, sets,
  works, deed, reported, seconds, rounds,
}

-- The server keeps a variable within its bounds.
abbrev pub KeepsBounds : (IntVar → ℤ → ℕ) → Type 0
KeepsBounds store =
    (v : IntVar)
    → v.min_value ≤ v.max_value
    → (z : ℤ) → (v.min_value ≤ store v z) × (store v z ≤ v.max_value)

-- By how much the count of questions grows from `p` over a run, as the rounds see it: a round that
-- cannot ask sees nothing, and to one that sees a lower count than the last it has not grown.
pub data Grows (login : Login) : ℕ → List Deed → ℕ → Type 0 where
  rests : (p : ℕ) → Grows login p [] 0
  setting : (p g : ℕ) (z : ℤ) (ds : List Deed) → Grows login p ds g → Grows login p (sets z ∷ ds) g
  missing :
      (p g : ℕ) (s : Samples) (running : List Bool) (ds : List Deed)
      → (db_metric_get login s.client).ok ≡ false
      → Grows login p ds g
      → Grows login p (works s running ∷ ds) g
  asking :
      (p q g : ℕ) (s : Samples) (running : List Bool) (ds : List Deed)
      → (db_metric_get login s.client).ok ≡ true
      → (db_metric_get login s.client).out.questions ≡ pos q
      → Grows login q ds g
      → Grows login p (works s running ∷ ds) (q - p + g)

queries_shown_lem : (i : Indicators) → queries_shown i ≡ pos_part i.g_db_queries_ps
unfolding queries_shown find_shown my_resource_status_vars same_name
queries_shown_lem i = refl

-- A rate for an interval accounts for the growth up to less than the interval.
account :
    (unit p q : ℕ) (rate : ℤ)
    → 1 ≤ unit
    → IsRate unit p q rate
    → (pos_part rate * unit ≤ q - p) × (q - p + 1 ≤ pos_part rate * unit + unit)
unfolding IsRate
account unit p q rate h (inl (back, e)) = rw e (omega arith, omega arith)
account unit p q rate h (inr (k, left, e, small, grown)) = rw e (omega arith, omega arith)

module _ (login : Login) (store : IntVar → ℤ → ℕ) (keeps : KeepsBounds store) where
  interval_bounds : (z : ℤ) → 1 ≤ store interval_var z
  unfolding interval_var
  interval_bounds z = (keeps interval_var (omega arith) z).0

  missed_rate :
      (s : Samples) (running : List Bool) (t : Thread)
      → (db_metric_get login s.client).ok ≡ false
      → queries_shown (deed login store t (works s running)).monitor.indicators ≡ 0
  unfolding deed round measure qps
  missed_rate s running t failed = queries_shown_lem _ ∙ rw failed refl

  asked-IsRate :
      (s : Samples) (running : List Bool) (t : Thread) (p q : ℕ)
      → t.monitor.prev_questions ≡ pos p
      → 1 ≤ t.g_interval_sec
      → (db_metric_get login s.client).ok ≡ true
      → (db_metric_get login s.client).out.questions ≡ pos q
      → IsRate t.g_interval_sec p q
          (deed login store t (works s running)).monitor.indicators.g_db_queries_ps
  unfolding deed round measure
  asked-IsRate s running t p q before h ok asked =
      rw before (qps-IsRate t.g_interval_sec p q (db_metric_get login s.client) h ok asked)

  kept :
      (s : Samples) (running : List Bool) (t : Thread)
      → (db_metric_get login s.client).ok ≡ false
      → (deed login store t (works s running)).monitor.prev_questions ≡ t.monitor.prev_questions
  unfolding deed round
  kept s running t failed = rw failed refl

  taken :
      (s : Samples) (running : List Bool) (t : Thread) (q : ℕ)
      → (db_metric_get login s.client).ok ≡ true
      → (db_metric_get login s.client).out.questions ≡ pos q
      → (deed login store t (works s running)).monitor.prev_questions ≡ pos q
  unfolding deed round
  taken s running t q ok asked = rw (ok, asked) refl

  -- Over any run of rounds, between which the interval may be set to anything, and in which the
  -- server may be out of reach or start to count anew: the rates in the table of status variables
  -- after the rounds, each taken for the seconds of its interval, account for at most the queries
  -- by which the count grows from the last one known before the run, where a count lower than the
  -- last is taken as no growth, and for all of them but at most the seconds of the intervals less
  -- one for each round. This is so as long as the server stores the interval within its bounds, and
  -- the run starts with an interval of at least a second.
  pub queries_accounted :
      (p g : ℕ) (ds : List Deed) (t : Thread)
      → Grows login p ds g
      → t.monitor.prev_questions ≡ pos p
      → 1 ≤ t.g_interval_sec
      → (reported login store ds t ≤ g)
        × (g + rounds ds ≤ reported login store ds t + seconds login store ds t)
  unfolding reported seconds rounds deed
  queries_accounted p _ _ t (rests _) before h = (omega arith, omega arith)
  queries_accounted p g _ t (setting _ _ z ds grows) before h =
      queries_accounted p g ds (deed login store t (sets z)) grows before (interval_bounds z)
  queries_accounted p g _ t (missing _ _ s running ds failed grows) before h =
      let rest =
        queries_accounted p g ds (deed login store t (works s running)) grows
          (kept s running t failed ∙ before) h in
      let nothing = missed_rate s running t failed in
      rw nothing (omega (arith, rest, h), omega (arith, rest, h))
  queries_accounted p _ _ t (asking _ q g s running ds ok asked grows) before h =
      let rest =
        queries_accounted q g ds (deed login store t (works s running)) grows
          (taken s running t q ok asked) h in
      let share =
        account t.g_interval_sec p q _ h (asked-IsRate s running t p q before h ok asked) in
      let shown = queries_shown_lem (deed login store t (works s running)).monitor.indicators in
      rw shown (omega (arith, rest, share), omega (arith, rest, share))
