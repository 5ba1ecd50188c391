-- ===== src/Monitor/Concurrent/Drain/Wait.antt =====
-- The wait of `plugin_deinit`, whatever happens during it.
use devel_mysql_plugin.Common.{
  ℕ, ◌+◌, ◌-◌, ◌≤◌, ◌≡◌, refl, ap, subst, ◌∙◌, arith, ℤ, true, false, List, [], ◌∷◌, length,
}
use devel_mysql_plugin.Monitor.Database.{Login}
use devel_mysql_plugin.Monitor.Variables.{IntVar}
use devel_mysql_plugin.Monitor.Concurrent.{Field, Place, finished, joining, System, work, Reachable}
use devel_mysql_plugin.Monitor.Concurrent.Places.{is_there, Fits, Reachable-Placed}
use devel_mysql_plugin.Monitor.Concurrent.Rounds.{measured_lines}
use devel_mysql_plugin.Monitor.Concurrent.Drain.{
  Act, works, sets, acts, thread_steps, field_left, left, lines_left, sleep_left, lines, Drains,
  work-Drains,
}

field_left_le : (f : Field) → field_left f ≤ 16
unfolding field_left
field_left_le f = ground arith

left_le : (l : Place) → left l ≤ 16
unfolding left
left_le l = grind (arith, field_left_le)

lines_left_le : (l : Place) → lines_left l ≤ 1
unfolding lines_left
lines_left_le l = ground arith

sleep_left_le : (l : Place) → sleep_left l ≤ 1
unfolding sleep_left
sleep_left_le l = ground arith

field_left_pos : (f : Field) → 1 ≤ field_left f
unfolding field_left
field_left_pos f = ground arith

none_left : (l : Place) → is_there l ≡ true → left l ≡ 0 → l ≡ finished
unfolding left is_there
none_left l there e = grind (arith, field_left_pos)

module _ (login : Login) where
  -- What happens while the flag is off, by the steps of the thread among it.
  acts-Drains :
      (rest : List Act) (t : System)
      → t.g_running ≡ false
      → is_there t.place ≡ true
      → let u = acts login rest t in
        (is_there u.place ≡ true)
        × (left u.place ≡ left t.place - thread_steps rest)
        × (lines u ≡ lines t)
        × (u.slept + sleep_left u.place ≤ t.slept + sleep_left t.place)
  unfolding acts thread_steps work
  acts-Drains [] t off there = (there, omega arith, refl, omega arith)
  acts-Drains (sets n ∷ rest) t off there =
      acts-Drains rest (record t { g_interval_sec = n }) off there
  acts-Drains (works s ∷ rest) t off there =
      let d : Drains t (work login s t) t.place = work-Drains login s t t.place refl off there in
      let (there', left', lines', sleep') = acts-Drains rest (work login s t) d.off d.there in
      (
        there',
        omega (arith, left', d.shorter),
        lines' ∙ d.same_lines,
        omega (arith, sleep', d.little_sleep),
      )

-- While `plugin_deinit` waits, whatever calls and steps went before, and whatever the intervals are
-- set to meanwhile: once the thread has taken sixteen steps it has returned; it then has written at
-- most one more line of a round, and slept at most one more second than at the time of the call.
pub plugin_deinit_waits :
    (login : Login) (store : IntVar → ℤ → ℕ) (t : System) (rest : List Act)
    → Reachable login store t
    → t.phase ≡ joining
    → 16 ≤ thread_steps rest
    → let u = acts login rest t in
      (u.place ≡ finished)
      × (length (measured_lines t.log) ≤ length (measured_lines u.log))
      × (length (measured_lines u.log) ≤ length (measured_lines t.log) + 1)
      × (u.slept ≤ t.slept + 1)
unfolding Fits lines_left
plugin_deinit_waits login store t rest r e enough =
    let w = subst (Fits t.g_running t.place) e (Reachable-Placed r) in
    let (there, fewer, same, sleep) = acts-Drains login rest t w.1 w.0 in
    let u = acts login rest t in
    let over = none_left u.place there (omega (arith, fewer, enough, left_le t.place)) in
    let nothing : lines_left u.place ≡ 0 = ap lines_left over in
    let ended : length (measured_lines u.log) + lines_left u.place ≡ lines t = same in
    (
      over,
      omega (arith, ended, nothing),
      omega (arith, ended, nothing, lines_left_le t.place),
      omega (arith, sleep, sleep_left_le t.place),
    )
