-- ===== src/Logger/Rate.antt =====
-- How often the thread prints, whenever it is stopped and started again.
use devel_mysql_plugin.Common.{
  ℕ, ◌+◌, ◌*◌, ◌≤◌, ◌≡◌, refl, sym, subst, arith, Bool, true, false, Option, none, some, List, ◌&&◌,
  not, ltb, length, Bool-cases, inl, inr,
}
use devel_mysql_plugin.Logger.Ram.{SysInfo, Line, sample}
use devel_mysql_plugin.Logger.System.{
  Worker, absent, testing, finished, waiting, System, os_logger_init, os_logger_deinit, joined,
  print, test_step, wait_step, work, work_at, Step, init_step, deinit_step, join_step, work_step,
  Reachable, at_start, by_step,
}
use devel_mysql_plugin.Logger.Invariant.{Fits, Reachable-Fits}

-- The number of threads started, after a step.
unfoldable pub counted : {s t : System} → Step s t → ℕ → ℕ
counted (init_step s true e) n = n + 1
counted (init_step s false e) n = n
counted (deinit_step s e) n = n
counted (join_step s e f) n = n
counted (work_step s info) n = n

-- The threads that a run has started.
unfoldable pub threads_started : {s : System} → Reachable s → ℕ
threads_started at_start = 0
threads_started (by_step s t r st) = counted st (threads_started r)

-- What the thread has slept since its last line: all five seconds where it is about to print.
unfoldable Slept : ℕ → ℕ → Bool → Worker → Type 0
Slept lines slept stop absent = Unit {0}
Slept lines slept stop finished = Unit {0}
Slept lines slept stop testing = stop ≡ false → 5 * lines + 5 ≤ slept
Slept lines slept stop (waiting i) = 5 * lines + i ≤ slept

-- `n` is the number of threads that have been started, with five seconds for each.
abbrev Spaced : ℕ → System → Type 0
Spaced n s =
    (5 * length s.log ≤ s.slept + 5 * n)
    × Slept (length s.log) (s.slept + 5 * n) s.stop_logger s.worker

length-print : (l : Option Line) (log : List Line) → length (print l log) ≤ length log + 1
length-print none log = omega arith
length-print (some l) log = omega arith

test-Spaced :
    (n : ℕ) (info : Option SysInfo) (s : System)
    → s.worker ≡ testing
    → Spaced n s
    → Spaced n (test_step info s)
unfolding Slept test_step
test-Spaced n info s e v = elim (Bool-cases s.stop_logger) [
  | inl stop ↦ rw stop (v.0, tt)
  | inr go ↦
      let due : 5 * length s.log + 5 ≤ s.slept + 5 * n =
        subst (Slept (length s.log) (s.slept + 5 * n) s.stop_logger) e v.1 go in
      let few = length-print (sample info) s.log in
      rw go (omega (arith, due, few), omega (arith, due, few))
]

wait-Spaced : (n i : ℕ) (s : System) → s.worker ≡ waiting i → Spaced n s → Spaced n (wait_step i s)
unfolding Slept wait_step
wait-Spaced n i s e v =
    let waited : 5 * length s.log + i ≤ s.slept + 5 * n =
      subst (Slept (length s.log) (s.slept + 5 * n) s.stop_logger) e v.1 in
    elim (Bool-cases (ltb i 5 && not s.stop_logger)) [
      | inl on ↦ rw on (omega arith, omega arith)
      | inr off ↦ rw off (v.0, (λ go. ground (arith, go, off, waited)))
    ]

work-Spaced :
    (n : ℕ) (info : Option SysInfo) (s : System) (w : Worker)
    → s.worker ≡ w
    → Spaced n s
    → Spaced n (work_at info s w)
work-Spaced n info s absent e v = v
work-Spaced n info s finished e v = v
work-Spaced n info s testing e v = test-Spaced n info s e v
work-Spaced n info s (waiting i) e v = wait-Spaced n i s e v

Slept-asked :
    (lines slept : ℕ) (stop : Bool) (w : Worker)
    → Slept lines slept stop w
    → Slept lines slept true w
unfolding Slept
Slept-asked lines slept stop absent v = tt
Slept-asked lines slept stop finished v = tt
Slept-asked lines slept stop testing v = λ e. absurd cc
Slept-asked lines slept stop (waiting i) v = v

deinit-Spaced : (n : ℕ) (s : System) → Spaced n s → Spaced n (os_logger_deinit s)
unfolding os_logger_deinit
deinit-Spaced n s v =
    let asked = Slept-asked (length s.log) (s.slept + 5 * n) s.stop_logger s.worker v.1 in
    elim (Bool-cases s.thread_running) [
      | inl on ↦ rw on (v.0, asked)
      | inr off ↦ rw off (v.0, asked)
    ]

Step-Spaced :
    {s t : System} (n : ℕ) (st : Step s t)
    → Fits s.stop_logger s.thread_running s.worker s.plugin
    → Spaced n s
    → Spaced (counted st n) t
unfolding counted os_logger_init joined work Fits Slept
Step-Spaced n (init_step s true e) f v = (omega (arith, v.0), λ go. omega (arith, v.0))
Step-Spaced n (init_step s false e) f v =
    let none_left = (subst (Fits s.stop_logger s.thread_running s.worker) e f).1 in
    (v.0, subst (Slept (length s.log) (s.slept + 5 * n) false) (sym none_left) tt)
Step-Spaced n (deinit_step s e) f v = deinit-Spaced n s v
Step-Spaced n (join_step s e done) f v = (v.0, tt)
Step-Spaced n (work_step s info) f v = work-Spaced n info s s.worker refl v

Reachable-Spaced : {s : System} (r : Reachable s) → Spaced (threads_started r) s
unfolding threads_started Slept
Reachable-Spaced at_start = (omega arith, tt)
Reachable-Spaced (by_step s t r st) =
    Step-Spaced (threads_started r) st (Reachable-Fits s r) (Reachable-Spaced r)

-- However the calls of the server and the steps of the thread interleave, and whenever the plugin is
-- stopped and started again: five seconds are slept for every line, but for the last line of each
-- thread that was started.
pub lines_spaced :
    (s : System) (r : Reachable s) → 5 * length s.log ≤ s.slept + 5 * threads_started r
lines_spaced s r = (Reachable-Spaced r).0
