-- ===== src/Monitor/Concurrent/Protocol.antt =====
-- The order of the lines in the error log.
pub mod Kept
use devel_mysql_plugin.Common.{
  ℕ, zero, suc, ◌+◌, ◌≡◌, refl, sym, ap, subst, ◌∙◌, arith, ℤ, Bool, true, false, ◌&&◌, ltb, Option,
  none, some, List, [], ◌∷◌, if◌then◌else◌,
}
use devel_mysql_plugin.Monitor.Database.{Login}
use devel_mysql_plugin.Monitor.Loop.{Indicators, Samples, remain_of}
use devel_mysql_plugin.Monitor.Variables.{IntVar}
use devel_mysql_plugin.Monitor.Concurrent.{
  Line, thread_started, initialized, create_failed, measured, thread_stopped, deinitialized, Prev,
  Field, cpu_pct, mem_used, mem_total, disk_read, disk_write, connections, queries_ps, Place,
  absent, entering, opening, ending, finished, testing, sampling, resting, reading, writing, asking,
  publishing, logging, napping, Phase, unloaded, initialising, loaded, joining, System,
  plugin_init_create, plugin_init_return, plugin_deinit_ask, plugin_deinit_return, assigned,
  work_at, work, Step, create_step, return_step, ask_step, join_step, set_step, work_step,
  Reachable, at_start, by_step,
}
use devel_mysql_plugin.Monitor.Concurrent.Places.{
  is_there, is_looping, Fits, Placed, Reachable-Placed,
}

-- How far the lines of one life of the plugin have come: there is none, or all of it is told; the
-- thread has started and `plugin_init` has not told; the other way round; both have told; or the
-- thread has stopped.
pub data Stage : Type 0 where
  out thread_only plugin_only up halted : Stage

-- The stage after a line; `none` if the line is out of order.
unfoldable pub told : Line → Stage → Option Stage
told (create_failed rc) out = some out
told (thread_started interval) out = some thread_only
told (thread_started interval) plugin_only = some up
told (initialized interval) out = some plugin_only
told (initialized interval) thread_only = some up
told (measured now) thread_only = some thread_only
told (measured now) up = some up
told thread_stopped up = some halted
told deinitialized halted = some out
told _ _ = none

-- The stage after a log, whose latest line comes first.
unfoldable pub told_all : List Line → Option Stage
told_all [] = some out
told_all (line ∷ log) = elim (told_all log) [ none ↦ none | some stage ↦ told line stage ]

-- The stage at which the server and the thread are.
unfoldable pub stage_of : Phase → Place → Stage
stage_of unloaded l = out
stage_of initialising entering = out
stage_of initialising _ = thread_only
stage_of loaded entering = plugin_only
stage_of loaded _ = up
stage_of joining entering = plugin_only
stage_of joining finished = halted
stage_of joining _ = up

abbrev pub Orderly : System → Type 0
Orderly t = told_all t.log ≡ some (stage_of t.phase t.place)

pub tells :
    (line : Line) (log : List Line) (stage next : Stage)
    → told_all log ≡ some stage
    → told line stage ≡ some next
    → told_all (line ∷ log) ≡ some next
unfolding told_all
tells line log stage next e f = rw e f

-- A place between the first line of the thread and its return.
unfoldable pub is_inside : Place → Bool
is_inside absent = false
is_inside entering = false
is_inside finished = false
is_inside _ = true

pub inside : (p : Phase) (l : Place) → is_inside l ≡ true → stage_of p l ≡ stage_of p opening
unfolding stage_of is_inside
inside unloaded l h = refl
inside initialising l h = ground arith
inside loaded l h = ground arith
inside joining l h = ground arith

-- A step with no line, from one place inside to another.
pub goes_on :
    (l l' : Place) (t : System)
    → is_inside l ≡ true
    → is_inside l' ≡ true
    → told_all t.log ≡ some (stage_of t.phase l)
    → told_all t.log ≡ some (stage_of t.phase l')
goes_on l l' t h h' v = v ∙ ap some (inside t.phase l h ∙ sym (inside t.phase l' h'))

pub enter-told :
    (running : Bool) (p : Phase) (interval : ℕ)
    → Fits running entering p
    → told (thread_started interval) (stage_of p entering) ≡ some (stage_of p opening)
unfolding Fits told stage_of
enter-told running unloaded interval w = ground (arith, w)
enter-told running initialising interval w = refl
enter-told running loaded interval w = refl
enter-told running joining interval w = refl

pub measure-told :
    (running : Bool) (p : Phase) (now : Indicators) (x : Prev)
    → Fits running (logging now x) p
    → told (measured now) (stage_of p (logging now x)) ≡ some (stage_of p (resting x))
unfolding Fits told stage_of
measure-told running unloaded now x w = ground (arith, w)
measure-told running initialising now x w = refl
measure-told running loaded now x w = refl
measure-told running joining now x w = refl

pub end-told :
    (running : Bool) (p : Phase)
    → Fits running ending p
    → told thread_stopped (stage_of p ending) ≡ some (stage_of p finished)
unfolding Fits told stage_of is_looping
end-told running unloaded w = ground (arith, w)
end-told running initialising w = ground (arith, w)
end-told running loaded w = ground (arith, w)
end-told running joining w = refl

pub return-told :
    (l : Place) (interval : ℕ)
    → is_looping l ≡ true
    → told (initialized interval) (stage_of initialising l) ≡ some (stage_of loaded l)
unfolding told stage_of is_looping
return-told l interval h = ground arith

pub asked_stage : (l : Place) → is_looping l ≡ true → stage_of loaded l ≡ stage_of joining l
unfolding stage_of is_looping
asked_stage l h = ground arith
