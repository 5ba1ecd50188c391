-- ===== src/Monitor/Concurrent/Rounds/Turns.antt =====
-- Whole rounds of the thread, with the interval set in between, and what their rates amount to.
use devel_mysql_plugin.Common.{
  ℕ, ◌+◌, ◌*◌, ◌≤◌, ◌≡◌, ◌∙◌, refl, sym, ap, subst, ℤ, pos, true, List, [], ◌∷◌,
}
use devel_mysql_plugin.Monitor.Database.{Login}
use devel_mysql_plugin.Monitor.Loop.{Samples, remain_of}
use devel_mysql_plugin.Monitor.Loop.Period.{running_for}
use devel_mysql_plugin.Monitor.Variables.{
  IntVar, interval_var, queries_shown, Thread, Deed, works, sets, deed, reported, seconds, rounds,
}
use devel_mysql_plugin.Monitor.Variables.Ledger.{KeepsBounds, Grows, queries_accounted}
use devel_mysql_plugin.Monitor.Concurrent.{Prev, testing, System, carried}
use devel_mysql_plugin.Monitor.Concurrent.Rounds
use devel_mysql_plugin.Monitor.Concurrent.Rounds.{
  monitor_of, steps_of, at_test, after, whole_round, after_round,
}

-- What happens while the thread is at the test of its loop: it goes through a round, with the answers
-- that it gets; or a session sets the interval.
pub data Turn : Type 0 where
  measures : Samples → Turn
  resets : ℤ → Turn

abbrev pub thread_of : System → Prev → Thread
thread_of t p = record { monitor = monitor_of t p; g_interval_sec = t.g_interval_sec }

module _ (login : Login) (store : IntVar → ℤ → ℕ) where
  abbrev one_round : Samples → System → System
  one_round s t = Rounds.works login (steps_of login t.g_interval_sec) s t

  abbrev set_interval : ℤ → System → System
  set_interval z t = record t { g_interval_sec = store interval_var z }

  -- The same as deeds of the thread, from an interval on.
  unfoldable pub deeds_of : List Turn → ℕ → List Deed
  deeds_of [] n = []
  deeds_of (measures s ∷ ts) n = works s (running_for (remain_of n)) ∷ deeds_of ts n
  deeds_of (resets z ∷ ts) n = sets z ∷ deeds_of ts (store interval_var z)

  -- The queries that the rates in the table of status variables amount to, as the system has them
  -- after each round.
  unfoldable pub system_reported : List Turn → System → ℕ
  system_reported [] t = 0
  system_reported (measures s ∷ ts) t =
      queries_shown (one_round s t).indicators * t.g_interval_sec
      + system_reported ts (one_round s t)
  system_reported (resets z ∷ ts) t = system_reported ts (set_interval z t)

  round_at :
      (s : Samples) (t : System) (p : Prev)
      → t.place ≡ testing p
      → t.g_running ≡ true
      → one_round s t ≡ after login s t p
  round_at s t p e on =
      ap (Rounds.works login (steps_of login t.g_interval_sec) s) (at_test login t p e)
      ∙ whole_round login s t p on

  round_deed :
      (s : Samples) (t : System) (p : Prev)
      → thread_of (after login s t p) (carried login s p)
        ≡ deed login store (thread_of t p) (works s (running_for (remain_of t.g_interval_sec)))
  unfolding deed
  round_deed s t p =
      ap (λ m. record { monitor = m; g_interval_sec = t.g_interval_sec }) (after_round login s t p)

  reported_same :
      (ts : List Turn) (t : System) (p : Prev)
      → t.place ≡ testing p
      → t.g_running ≡ true
      → system_reported ts t ≡ reported login store (deeds_of ts t.g_interval_sec) (thread_of t p)
  unfolding system_reported reported deeds_of deed monitor_of
  reported_same [] t p e on = refl
  reported_same (resets z ∷ ts) t p e on = reported_same ts (set_interval z t) p e on
  reported_same (measures s ∷ ts) t p e on =
      let unit = t.g_interval_sec in
      let rest = deeds_of ts unit in
      let next = after login s t p in
      ap (λ u. queries_shown u.indicators * unit + system_reported ts u) (round_at s t p e on)
      ∙ ap (λ n. queries_shown next.indicators * unit + n)
          (reported_same ts next (carried login s p) refl on)
      ∙ ap (λ u. queries_shown u.monitor.indicators * unit + reported login store rest u)
          (round_deed s t p)

  -- In the system of the server and the thread: over any run of rounds from the test of the loop on,
  -- between which the interval may be set to anything, and in which the server may be out of reach
  -- or start to count anew: the rates that SHOW STATUS shows after the rounds, each taken for the
  -- seconds of its interval, account for at most the queries by which the count grows from the last
  -- one known before the run, where a count lower than the last is taken as no growth, and for all
  -- of them but at most the seconds of the intervals less one for each round. This is so as long as
  -- the server stores the interval within its bounds, and the run starts with an interval of at
  -- least a second.
  pub turns_accounted :
      (ts : List Turn) (t : System) (p : Prev) (known g : ℕ)
      → KeepsBounds store
      → t.place ≡ testing p
      → t.g_running ≡ true
      → p.prev_questions ≡ pos known
      → 1 ≤ t.g_interval_sec
      → Grows login known (deeds_of ts t.g_interval_sec) g
      → let ds = deeds_of ts t.g_interval_sec in
        (system_reported ts t ≤ g)
        × (g + rounds ds ≤ system_reported ts t + seconds login store ds (thread_of t p))
  unfolding monitor_of
  turns_accounted ts t p known g keeps e on before h grows =
      let ds = deeds_of ts t.g_interval_sec in
      let total = thread_of t p in
      let (few, all) = queries_accounted login store keeps known g ds total grows before h in
      let same = sym (reported_same ts t p e on) in
      (
        subst (λ n. n ≤ g) same few,
        subst (λ n. g + rounds ds ≤ n + seconds login store ds total) same all,
      )
