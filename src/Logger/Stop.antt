-- ===== src/Logger/Stop.antt =====
-- How often the thread prints, and how soon it stops.
use devel_mysql_plugin.Common.{
  ℕ, zero, suc, ◌+◌, ◌≡◌, ◌≢◌, refl, ap, ◌∙◌, arith, Bool, true, false, Option, none, List, ◌&&◌,
  not, subst, sym, ltb,
}
use devel_mysql_plugin.Logger.Ram.{SysInfo, Line, sample}
use devel_mysql_plugin.Logger.System.{
  Worker, absent, testing, finished, waiting, Plugin, joining, System, joined, print, test_step,
  wait_step, work, work_at, Step, join_step, Reachable,
}
use devel_mysql_plugin.Logger.Invariant.{Fits, Reachable-Fits}

work_finishes :
    (info : Option SysInfo) (s : System)
    → s.worker ≡ testing
    → s.stop_logger ≡ true
    → work info s ≡ record s { worker = finished }
unfolding work test_step
work_finishes info s e stop = ap (work_at info s) e ∙ rw stop refl

work_leaves :
    (info : Option SysInfo) (s : System) (i : ℕ)
    → s.worker ≡ waiting i
    → s.stop_logger ≡ true
    → work info s ≡ record s { worker = testing }
unfolding work wait_step
work_leaves info s i e stop =
    let ends : (ltb i 5 && not s.stop_logger) ≡ false = ground (arith, stop) in
    ap (work_at info s) e ∙ rw ends refl

work_stays : (info : Option SysInfo) (s : System) → s.worker ≡ finished → work info s ≡ s
unfolding work
work_stays info s e = ap (work_at info s) e

halts_at :
    (w : Worker) (info info' : Option SysInfo) (s : System)
    → s.worker ≡ w
    → s.stop_logger ≡ true
    → w ≢ absent
    → work info' (work info s) ≡ record s { worker = finished }
halts_at absent info info' s e stop h = absurd (h refl)
halts_at testing info info' s e stop h =
    ap (work info') (work_finishes info s e stop)
    ∙ work_stays info' (record s { worker = finished }) refl
halts_at (waiting i) info info' s e stop h =
    ap (work info') (work_leaves info s i e stop)
    ∙ work_finishes info' (record s { worker = testing }) refl stop
halts_at finished info info' s e stop h =
    ap (work info') (work_stays info s e)
    ∙ work_stays info' s e
    ∙ ap (λ w. record s { worker = w }) e

joins :
    (s : System)
    → s.plugin ≡ joining
    → Step (record s { worker = finished }) (joined (record s { worker = finished }))
joins s e = join_step (record s { worker = finished }) e refl

-- Once `os_logger_deinit` waits, wherever the thread is, it returns after at most two more tests of
-- the flag, prints no more line and begins no more second of sleep; then the join goes through.
pub deinit_halts :
    (s : System) (info info' : Option SysInfo)
    → Reachable s
    → s.plugin ≡ joining
    → (work info' (work info s) ≡ record s { worker = finished })
      × Step (record s { worker = finished }) (joined (record s { worker = finished }))
unfolding Fits
deinit_halts s info info' r e =
    let v = subst (Fits s.stop_logger s.thread_running s.worker) e (Reachable-Fits s r) in
    (halts_at s.worker info info' s refl v.2 v.1, joins s e)

-- `n` steps of the thread that ask nothing of the system.
unfoldable pub works : ℕ → System → System
works zero s = s
works (suc n) s = works n (work none s)

cycle_from :
    (info : Option SysInfo) (running : Bool) (plugin : Plugin) (log : List Line) (slept : ℕ)
    → works 6 (
        work info (record {
          stop_logger = false;
          thread_running = running;
          worker = testing;
          plugin = plugin;
          log = log;
          slept = slept;
        }))
      ≡ record {
        stop_logger = false;
        thread_running = running;
        worker = testing;
        plugin = plugin;
        log = print (sample info) log;
        slept = slept + 1 + 1 + 1 + 1 + 1;
      }
unfolding works work test_step wait_step
cycle_from info running plugin log slept = refl

-- A thread at the test of the outer loop that is not asked to stop prints a line, unless `sysinfo`
-- fails, and is back at the test after five seconds of sleep.
pub works-cycle :
    (info : Option SysInfo) (s : System)
    → s.worker ≡ testing
    → s.stop_logger ≡ false
    → works 6 (work info s)
      ≡ record s { worker = testing; log = print (sample info) s.log; slept = s.slept + 5 }
works-cycle info s e go =
    let same : s ≡ record s { worker = testing; stop_logger = false } =
      ap (λ w. record s { worker = w }) e
      ∙ ap (λ b. record s { worker = testing; stop_logger = b }) go in
    let log = print (sample info) s.log in
    ap (λ t. works 6 (work info t)) same
    ∙ cycle_from info s.thread_running s.plugin s.log s.slept
    ∙ ap (λ n. record s { worker = testing; stop_logger = false; log = log; slept = n })
        (omega arith)
    ∙ ap (λ b. record s { worker = testing; stop_logger = b; log = log; slept = s.slept + 5 })
        (sym go)
